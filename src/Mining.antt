-- ===== src/Mining.antt =====
-- `blockchain_mine_block` and `synchronized_blockchain_mine_block` of src/blockchain.c, without the
-- progress that they print.
pub mod Search
use leocoin.Prelude.{
  ℕ, zero, suc, ◌+◌, ◌-◌, ◌^◌, Bool, true, false, not, some, none, ◌==◌, if◌then◌else◌,
}
use leocoin.Result.{
  Result, ok, err, fault, ◌>>=◌, ReturnCode, Pointer, given, failure_invalid_input,
  failure_stopped_early, failure_longer_blockchain_detected, failure_pthread_function,
  failure_could_not_find_valid_proof_of_work,
}
use leocoin.Endian.Memory.{Host}
use leocoin.Blockchain.{Block, Blockchain}
use leocoin.Crypto.{OpenSsl}
use leocoin.Block.{block_hash}
use leocoin.Verify.{blockchain_is_valid_block_hash}

-- What other threads have written by the round in which the loop reads it: the value of
-- `*should_stop`, and the two versions.
abbrev pub Schedule : Type 0 → Type 0
Schedule A = ℕ → A

-- The block as the function leaves it, and its return code.
abbrev pub Mined : Type 0
Mined = Block × Result (Unit {0})

abbrev pub with_proof : Block → ℕ → Block
with_proof b proof = record b { proof_of_work = proof }

-- What a round does with the result of its try.
abbrev pub after_try : Block → Result Bool → Mined → Mined
after_try b (ok true) rest = (b, ok tt)
after_try b (ok false) rest = rest
after_try b (err e) rest = (b, err e)
after_try b fault rest = (b, fault)

module _ (ssl : OpenSsl) (host : Host) (c : Blockchain) where
  -- `block_hash`, then `blockchain_is_valid_block_hash`.
  unfoldable pub try_proof : Block → Result Bool
  try_proof b = do
    hash ← block_hash ssl host (some b) given
    blockchain_is_valid_block_hash (some c) hash given

  -- The loop with `rounds` rounds left. `interrupt` is the code with which a round ends the loop
  -- before it hashes, if it does.
  unfoldable pub mine_loop : Schedule (Pointer ReturnCode) → (rounds new_proof : ℕ) → Block → Mined
  unfolding try_proof
  mine_loop interrupt zero new_proof b = (b, err failure_could_not_find_valid_proof_of_work)
  mine_loop interrupt (suc rounds) new_proof b = elim (interrupt new_proof) [
    | some code ↦ (b, err code)
    | none ↦
        let tried = with_proof b new_proof in
        let rest = mine_loop interrupt rounds (new_proof + 1) tried in
        after_try tried (try_proof tried) rest
  ]

-- `UINT64_MAX`
abbrev pub uint64_max : ℕ
uint64_max = 2 ^ 64 - 1

abbrev pub stop_code : Bool → Pointer ReturnCode
stop_code true = some failure_stopped_early
stop_code false = none

unfoldable pub blockchain_mine_block :
    OpenSsl → Host → Pointer Blockchain → Block → Pointer (Schedule Bool) → Mined
blockchain_mine_block ssl host none b should_stop = (b, err failure_invalid_input)
blockchain_mine_block ssl host (some c) b none = (b, err failure_invalid_input)
blockchain_mine_block ssl host (some c) b (some should_stop) =
    mine_loop ssl host c (λ round. stop_code (should_stop round)) uint64_max 0 b

-- `sync->blockchain`, the results of locking and unlocking `sync->mutex`, and the version.
pub record SynchronizedBlockchain : Type 0 where
  pub blockchain : Blockchain
  pub locks : Bool
  pub unlocks : Bool
  pub version : Schedule ℕ

abbrev pub interrupt_code : Bool → Bool → Pointer ReturnCode
interrupt_code true same = some failure_stopped_early
interrupt_code false true = none
interrupt_code false false = some failure_longer_blockchain_detected

unfoldable pub synchronized_blockchain_mine_block :
    OpenSsl
    → Host
    → Pointer SynchronizedBlockchain
    → Block
    → Pointer (Schedule Bool)
    → Pointer (Schedule ℕ)
    → Mined
synchronized_blockchain_mine_block ssl host none b should_stop mined =
    (b, err failure_invalid_input)
synchronized_blockchain_mine_block ssl host (some sync) b none mined =
    (b, err failure_invalid_input)
synchronized_blockchain_mine_block ssl host (some sync) b (some should_stop) none =
    (b, err failure_invalid_input)
synchronized_blockchain_mine_block ssl host (some sync) b (some should_stop) (some mined) =
    if not sync.locks
    then (b, err failure_pthread_function)
    else if not sync.unlocks
    then (b, err failure_pthread_function)
    else mine_loop ssl host sync.blockchain
        (λ round. interrupt_code (should_stop round) (mined round == sync.version round)) uint64_max
        0 b
