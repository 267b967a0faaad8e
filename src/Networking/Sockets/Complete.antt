-- ===== src/Networking/Sockets/Complete.antt =====
-- Messages that arrive in pieces arrive whole, and what ends the loops.
use leocoin.Prelude.{
  ℕ, ◌∙◌, sym, split_at?-some, split_at?-sound, zero, suc, ◌+◌, ◌%◌, ◌<◌, ◌^◌, ◌≡◌, refl, ap, true,
  false, some, List, [], ◌∷◌, ◌++◌, append_assoc, append-nil, arith, length, length-append, All,
  ◌==◌, leb, replicate, split_at?, split_at?-append, Bool-cases, inl, inr,
}
use leocoin.Result.{ok, err, failure_network_function}
use leocoin.Networking.Sockets.{
  Received, recv_failed, received, returned, calls_again, front_of, recv_loop, recv_all, Sent, sent,
  send_failed, send_loop, send_all,
}

-- The pieces put together, as answers of `recv`, and a size that an `int` holds.
abbrev pub joined : List (List ℕ) → List ℕ
joined [] = []
joined (piece ∷ pieces) = piece ++ joined pieces

abbrev pub arriving : List (List ℕ) → List Received → List Received
arriving [] more = more
arriving (piece ∷ pieces) more = received piece ∷ arriving pieces more

abbrev pub FitsInt : List ℕ → Type 0
FitsInt piece = length piece < 2 ^ 31

front_of-whole :
    (bytes : List ℕ)
    → length bytes < 2 ^ 31
    → front_of (split_at? (length bytes % 2 ^ 32) bytes) ≡ bytes
front_of-whole bytes small =
    let same : length bytes ≡ length bytes % 2 ^ 32 = omega arith in
    rw (rw append-nil at (split_at?-append bytes [] (length bytes % 2 ^ 32) same))

-- A buffer that is full ends the loop, whatever answers could still come.
recv_loop-full :
    (len : ℕ) (answers : List Received) (buf : List ℕ)
    → length buf ≡ len
    → recv_loop len answers buf ≡ returned (ok buf)
unfolding recv_loop
recv_loop-full len [] buf e = let full : (length buf == len) ≡ true = ground arith in rw full
recv_loop-full len (recv_failed ∷ answers) buf e =
    let full : (length buf == len) ≡ true = ground arith in rw full
recv_loop-full len (received bytes ∷ answers) buf e =
    let full : (length buf == len) ≡ true = ground arith in rw full

-- A piece that does not fill more than the buffer is put behind what is there.
recv_loop-step :
    (len : ℕ) (bytes : List ℕ) (answers : List Received) (buf : List ℕ)
    → length bytes < 2 ^ 31
    → length buf < len
    → recv_loop len (received bytes ∷ answers) buf ≡ recv_loop len answers (buf ++ bytes)
unfolding recv_loop
recv_loop-step len bytes answers buf small room =
    let short : (length buf == len) ≡ false = ground arith in
    let positive : leb (2 ^ 31) (length bytes % 2 ^ 32) ≡ false = ground arith in
    rw (short, positive, front_of-whole bytes small)

empty_of_length : (xs : List ℕ) → length xs ≡ 0 → xs ≡ []
empty_of_length [] e = refl
empty_of_length (x ∷ xs) e = absurd (omega arith)

recv_loop-joined :
    (len : ℕ) (pieces : List (List ℕ)) (more : List Received) (buf : List ℕ)
    → All FitsInt pieces
    → length buf + length (joined pieces) ≡ len
    → recv_loop len (arriving pieces more) buf ≡ returned (ok (buf ++ joined pieces))
recv_loop-joined len [] more buf v e = rw append-nil (recv_loop-full len more buf (omega arith))
recv_loop-joined len (piece ∷ pieces) more buf (v, vs) e =
    let sum = length-append piece (joined pieces) in
    let grown = length-append buf piece in
    let rest = recv_loop-joined len pieces more (buf ++ piece) vs (omega (arith, sum, grown)) in
    elim (Bool-cases (length buf == len)) [
      | inl full ↦
          let whole : length (joined (piece ∷ pieces)) ≡ 0 = ground (arith, sum) in
          recv_loop-full len (arriving (piece ∷ pieces) more) buf (ground arith)
          ∙ rw (empty_of_length (joined (piece ∷ pieces)) whole, append-nil)
      | inr short ↦
          recv_loop-step len piece (arriving pieces more) buf v (ground (arith, sum))
          ∙ rw append_assoc at rest
    ]

-- Pieces that do not fill the buffer leave the loop where the answers behind them decide.
recv_loop-short :
    (len : ℕ) (pieces : List (List ℕ)) (more : List Received) (buf : List ℕ)
    → All FitsInt pieces
    → length buf + length (joined pieces) < len
    → recv_loop len (arriving pieces more) buf ≡ recv_loop len more (buf ++ joined pieces)
recv_loop-short len [] more buf v room = rw append-nil
recv_loop-short len (piece ∷ pieces) more buf (v, vs) room =
    let sum = length-append piece (joined pieces) in
    let grown = length-append buf piece in
    recv_loop-step len piece (arriving pieces more) buf v (omega (arith, sum))
    ∙ rw append_assoc at
        (recv_loop-short len pieces more (buf ++ piece) vs (omega (arith, sum, grown)))

recv_loop-closed :
    (len : ℕ) (buf : List ℕ) (n : ℕ)
    → length buf < len
    → recv_loop len (replicate n (received [])) buf ≡ calls_again
recv_loop-closed len buf zero room =
    let short : (length buf == len) ≡ false = ground arith in unfold recv_loop in rw short
recv_loop-closed len buf (suc n) room =
    recv_loop-step len [] (replicate n (received [])) buf (omega arith) room
    ∙ rw append-nil (recv_loop-closed len buf n room)

-- However a message of `len` bytes is cut into pieces, empty ones included, `recv_all` returns when
-- it has all of them, with the message in the buffer. A piece is smaller than 2^31 bytes.
pub recv_all-joined :
    (pieces : List (List ℕ)) (more : List Received) (len : ℕ)
    → All FitsInt pieces
    → length (joined pieces) ≡ len
    → recv_all false len (arriving pieces more) ≡ returned (ok (joined pieces))
unfolding recv_all
recv_all-joined pieces more len v e = recv_loop-joined len pieces more [] v (omega arith)

-- If less than `len` bytes arrive, `recv_all` fails when `recv` then fails, and never returns when
-- `recv` then returns 0 each time, which it does when the peer has closed the connection.
pub recv_all-incomplete :
    (pieces : List (List ℕ)) (len : ℕ)
    → All FitsInt pieces
    → length (joined pieces) < len
    → ((more : List Received)
        → recv_all false len (arriving pieces (recv_failed ∷ more))
          ≡ returned (err failure_network_function))
      × ((n : ℕ) → recv_all false len (arriving pieces (replicate n (received []))) ≡ calls_again)
unfolding recv_all
recv_all-incomplete pieces len v short =
    let not_full : (length (joined pieces) == len) ≡ false = ground arith in
    (
      (λ more.
          recv_loop-short len pieces (recv_failed ∷ more) [] v (omega arith)
          ∙ unfold recv_loop in rw not_full),
      (λ n.
          recv_loop-short len pieces (replicate n (received [])) [] v (omega arith)
          ∙ recv_loop-closed len (joined pieces) n short),
    )

-- The numbers of bytes that `send` takes, as its answers, and their sum.
abbrev pub taking : List ℕ → List Sent → List Sent
taking [] more = more
taking (n ∷ ns) more = sent n ∷ taking ns more

abbrev pub sum : List ℕ → ℕ
sum [] = 0
sum (n ∷ ns) = n + sum ns

send_loop-empty :
    (answers : List Sent) (stream : List ℕ) → send_loop [] answers stream ≡ returned (ok stream)
unfolding send_loop
send_loop-empty [] stream = refl
send_loop-empty (send_failed ∷ answers) stream = refl
send_loop-empty (sent n ∷ answers) stream = refl

-- Bytes that are taken go behind those that were taken before.
send_loop-step :
    (n : ℕ) (answers : List Sent) (left stream front left' : List ℕ)
    → n < 2 ^ 31
    → (length left == 0) ≡ false
    → split_at? (n % 2 ^ 32) left ≡ some (front, left')
    → send_loop left (sent n ∷ answers) stream ≡ send_loop left' answers (stream ++ front)
unfolding send_loop
send_loop-step n answers left stream front left' small short cut =
    let positive : leb (2 ^ 31) (n % 2 ^ 32) ≡ false = ground arith in rw (short, positive, cut)

send_loop-taking :
    (ns : List ℕ) (more : List Sent) (left stream : List ℕ)
    → All (λ n. n < 2 ^ 31) ns
    → sum ns ≡ length left
    → send_loop left (taking ns more) stream ≡ returned (ok (stream ++ left))
send_loop-taking [] more left stream v e =
    rw (empty_of_length left (omega arith), append-nil) (send_loop-empty more stream)
send_loop-taking (n ∷ ns) more left stream (v, vs) e = elim (Bool-cases (length left == 0)) [
  | inl done ↦
      rw (empty_of_length left (ground arith), append-nil)
        (send_loop-empty (taking (n ∷ ns) more) stream)
  | inr short ↦
      let same : n % 2 ^ 32 ≡ n = omega arith in
      let ((front, left'), cut) = split_at?-some (n % 2 ^ 32) left (omega (arith, same)) in
      let (parts, size) = split_at?-sound (n % 2 ^ 32) left front left' cut in
      let rest =
        send_loop-taking ns more left' (stream ++ front) vs
          (omega (arith, size, same, ap length parts, length-append front left')) in
      send_loop-step n (taking ns more) left stream front left' v short cut
      ∙ rest
      ∙ rw (append_assoc, sym parts)
]

-- However `send` takes the bytes of a message, in pieces of less than 2^31 bytes and none of them
-- beyond its end, `send_all` returns when all are taken, and what the socket has taken is the message.
pub send_all-taking :
    (ns : List ℕ) (more : List Sent) (buf : List ℕ)
    → All (λ n. n < 2 ^ 31) ns
    → sum ns ≡ length buf
    → send_all (some buf) (taking ns more) ≡ returned (ok buf)
unfolding send_all
send_all-taking ns more buf v e = send_loop-taking ns more buf [] v e
