-- ===== src/Examples/Sockets.antt =====
-- The theorems on `recv_all` and `send_all` at concrete values.
use leocoin.Prelude.{ℕ, ◌≡◌, refl, false, some, List, [], ◌∷◌, arith, replicate}
use leocoin.Result.{ok, err, failure_network_function}
use leocoin.Networking.Sockets.{
  Received, recv_failed, received, returned, calls_again, recv_all, send_failed, send_all,
}
use leocoin.Networking.Sockets.Complete.{
  joined, arriving, taking, recv_all-joined, recv_all-incomplete, send_all-taking,
}

-- A message of four bytes, in two pieces with an empty one between them.
abbrev pieces : List (List ℕ)
pieces = (1 ∷ 2 ∷ []) ∷ [] ∷ (3 ∷ 4 ∷ []) ∷ []

recv_all-joined_example :
    recv_all false 4 (arriving pieces (recv_failed ∷ [])) ≡ returned (ok (joined pieces))
recv_all-joined_example =
    recv_all-joined pieces (recv_failed ∷ []) 4 (omega arith, (omega arith, (omega arith, tt))) refl

recv_all-incomplete_example :
    ((more : List Received)
      → recv_all false 5 (arriving pieces (recv_failed ∷ more))
        ≡ returned (err failure_network_function))
    × ((n : ℕ) → recv_all false 5 (arriving pieces (replicate n (received []))) ≡ calls_again)
recv_all-incomplete_example =
    recv_all-incomplete pieces 5 (omega arith, (omega arith, (omega arith, tt))) (omega arith)

abbrev message : List ℕ
message = 1 ∷ 2 ∷ 3 ∷ []

send_all-taking_example :
    send_all (some message) (taking (2 ∷ 0 ∷ 1 ∷ []) (send_failed ∷ [])) ≡ returned (ok message)
send_all-taking_example =
    send_all-taking (2 ∷ 0 ∷ 1 ∷ []) (send_failed ∷ []) message
      (omega arith, (omega arith, (omega arith, tt))) refl
