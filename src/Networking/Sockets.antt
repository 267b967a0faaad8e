-- ===== src/Networking/Sockets.antt =====
-- `recv_all` and `send_all` of src/networking.c, on the answers that the socket gives one after the
-- other.
pub mod Complete
use leocoin.Prelude.{
  ℕ, ◌+◌, ◌%◌, ◌^◌, Bool, Option, none, some, List, [], ◌∷◌, ◌++◌, ◌==◌, leb, if◌then◌else◌, length,
  split_at?,
}
use leocoin.Result.{
  Result, ok, err, fault, Pointer, failure_invalid_input, failure_network_function,
}

-- What a call of `recv` does: it fails, or it puts these bytes into the buffer.
pub data Received : Type 0 where
  recv_failed : Received
  received : List ℕ → Received

-- What a call of `send` does: it fails, or it takes this many bytes.
pub data Sent : Type 0 where
  send_failed : Sent
  sent : ℕ → Sent

-- A loop that has ended, or that calls again when the answers are used up.
pub data Loop : Type 0 where
  returned : Result (List ℕ) → Loop
  calls_again : Loop

-- `int bytes = ...` of a `ssize_t`: the number that is added, and whether it is negative.
abbrev pub int_bits : ℕ → ℕ
int_bits n = n % 2 ^ 32

abbrev pub is_negative : ℕ → Bool
is_negative n = leb (2 ^ 31) (int_bits n)

abbrev pub front_of : Option (List ℕ × List ℕ) → List ℕ
front_of none = []
front_of (some (front, _)) = front

-- The loop of `recv_all` over a buffer of `len` bytes; `buf` is its first `total_bytes_recvd` bytes.
unfoldable pub recv_loop : ℕ → List Received → List ℕ → Loop
recv_loop len [] buf = if length buf == len then returned (ok buf) else calls_again
recv_loop len (recv_failed ∷ answers) buf =
    if length buf == len then returned (ok buf) else returned (err failure_network_function)
recv_loop len (received bytes ∷ answers) buf =
    let rest =
      recv_loop len answers (buf ++ front_of (split_at? (int_bits (length bytes)) bytes)) in
    if length buf == len
    then returned (ok buf)
    else if is_negative (length bytes)
    then returned (err failure_network_function)
    else rest

-- The bytes that are in the buffer when the function returns; the buffer itself is the caller's.
unfoldable pub recv_all : (buf_is_null : Bool) → ℕ → List Received → Loop
unfolding recv_loop
recv_all buf_is_null len answers =
    if buf_is_null then returned (err failure_invalid_input) else recv_loop len answers []

abbrev pub continue_with : Option (List ℕ × List ℕ) → (List ℕ → List ℕ → Loop) → Loop
continue_with none f = returned fault
continue_with (some (front, rest)) f = f front rest

-- The loop of `send_all`; `left` are the bytes of the buffer that are not sent yet, and `stream` what
-- the socket has taken. A fault where it says that it took more than it was given.
unfoldable pub send_loop : List ℕ → List Sent → List ℕ → Loop
send_loop left [] stream = if length left == 0 then returned (ok stream) else calls_again
send_loop left (send_failed ∷ answers) stream =
    if length left == 0 then returned (ok stream) else returned (err failure_network_function)
send_loop left (sent n ∷ answers) stream =
    let rest =
      continue_with (split_at? (int_bits n) left)
        (λ front left'. send_loop left' answers (stream ++ front)) in
    if length left == 0
    then returned (ok stream)
    else if is_negative n
    then returned (err failure_network_function)
    else rest

unfoldable pub send_all : Pointer (List ℕ) → List Sent → Loop
unfolding send_loop
send_all none answers = returned (err failure_invalid_input)
send_all (some buf) answers = send_loop buf answers []
