-- ===== src/Mining/Search.antt =====
-- The loop finds the first valid proof of work, or says why it does not.
use leocoin.Prelude.{
  ℕ, zero, suc, ◌+◌, ◌≤◌, ◌<◌, ◌≡◌, ◌⊎◌, inl, inr, refl, ◌∙◌, Bool, true, false, some, none, arith,
  Option-cases, ◌==◌,
}
use leocoin.Result.{ok, err, ReturnCode, Pointer, failure_could_not_find_valid_proof_of_work}
use native.Mathlib.Decide.{ℕ_discrete}
use leocoin.Endian.Memory.{Host}
use leocoin.Blockchain.{Block, Blockchain}
use leocoin.Crypto.{OpenSsl, HashesTo32}
use leocoin.Block.{block_hash_lem, hashed_memory}
use leocoin.Verify.{blockchain_is_valid_block_hash}
use leocoin.Verify.Correct.{leading_zeros_total}
use leocoin.Mining.{
  Schedule, Mined, with_proof, try_proof, after_try, mine_loop, uint64_max, blockchain_mine_block,
  stop_code, SynchronizedBlockchain, interrupt_code, synchronized_blockchain_mine_block,
}

-- Rounds from `from` up to `to` that neither end the loop nor find a valid proof.
pub record Fruitless (ssl : OpenSsl) (host : Host) (c : Blockchain)
    (interrupt : Schedule (Pointer ReturnCode)) (b : Block) (from to : ℕ) : Type 0 where
  pub goes_on : (q : ℕ) → from ≤ q → q < to → interrupt q ≡ none
  pub no_proof : (q : ℕ) → from ≤ q → q < to → try_proof ssl host c (with_proof b q) ≡ ok false

-- How a run that starts at `from` with `rounds` rounds ends.
pub data Ends (ssl : OpenSsl) (host : Host) (c : Blockchain)
    (interrupt : Schedule (Pointer ReturnCode)) (b : Block) (from rounds : ℕ) (m : Mined)
    : Type 0 where
  found :
      (p : ℕ)
      → from ≤ p
      → p < from + rounds
      → Fruitless ssl host c interrupt b from p
      → interrupt p ≡ none
      → try_proof ssl host c (with_proof b p) ≡ ok true
      → m ≡ (with_proof b p, ok tt)
      → Ends ssl host c interrupt b from rounds m
  interrupted :
      (p last : ℕ) (code : ReturnCode)
      → from ≤ p
      → p < from + rounds
      → Fruitless ssl host c interrupt b from p
      → interrupt p ≡ some code
      → m ≡ (with_proof b last, err code)
      → Ends ssl host c interrupt b from rounds m
  exhausted :
      (last : ℕ)
      → Fruitless ssl host c interrupt b from (from + rounds)
      → m ≡ (with_proof b last, err failure_could_not_find_valid_proof_of_work)
      → Ends ssl host c interrupt b from rounds m

module _ (ssl : OpenSsl) (host : Host) (c : Blockchain) (h32 : HashesTo32 ssl)
    (small : c.num_leading_zero_bytes ≤ 32) where
  try_proof_total : (b : Block) → (r : Bool) × (try_proof ssl host c b ≡ ok r)
  unfolding try_proof blockchain_is_valid_block_hash
  try_proof_total b = rw (block_hash_lem ssl host b h32.md_ctx_new) (
      leading_zeros_total c.num_leading_zero_bytes _
        (omega (arith, h32.length_sha256 (hashed_memory host b))))

  module _ (interrupt : Schedule (Pointer ReturnCode)) where
    loop_interrupted :
        (rounds from : ℕ) (b : Block) (code : ReturnCode)
        → interrupt from ≡ some code
        → mine_loop ssl host c interrupt (suc rounds) from b ≡ (b, err code)
    unfolding mine_loop
    loop_interrupted rounds from b code e = rw (e, mine_loop)

    loop_tries :
        (rounds from : ℕ) (b : Block)
        → interrupt from ≡ none
        → mine_loop ssl host c interrupt (suc rounds) from b
          ≡ after_try
              (with_proof b from)
              (try_proof ssl host c (with_proof b from))
              (mine_loop ssl host c interrupt rounds (from + 1) (with_proof b from))
    unfolding mine_loop
    loop_tries rounds from b e = rw (e, mine_loop)

    -- A round that finds nothing comes before the rounds that follow.
    Fruitless-cons :
        (b : Block) (from to : ℕ)
        → interrupt from ≡ none
        → try_proof ssl host c (with_proof b from) ≡ ok false
        → Fruitless ssl host c interrupt b (from + 1) to
        → Fruitless ssl host c interrupt b from to
    Fruitless-cons b from to e f rest = record {
      goes_on = λ q lo hi. elim (ℕ_discrete q from) [
        | yes same ↦ rw same e
        | no other ↦ rest.goes_on q (omega arith) hi
      ];
      no_proof = λ q lo hi. elim (ℕ_discrete q from) [
        | yes same ↦ rw same f
        | no other ↦ rest.no_proof q (omega arith) hi
      ];
    }

    Fruitless-empty :
        (b : Block) (from to : ℕ) → to ≤ from → Fruitless ssl host c interrupt b from to
    Fruitless-empty b from to h = record {
      goes_on = λ q lo hi. absurd (omega arith);
      no_proof = λ q lo hi. absurd (omega arith);
    }

    -- One fruitless round more at the front.
    Ends-cons :
        (b : Block) (from rounds : ℕ) (m : Mined)
        → interrupt from ≡ none
        → try_proof ssl host c (with_proof b from) ≡ ok false
        → Ends ssl host c interrupt (with_proof b from) (from + 1) rounds m
        → Ends ssl host c interrupt b from (suc rounds) m
    Ends-cons b from rounds m e f (found p lo hi rest on valid eq) =
        found p (omega arith) (omega arith)
          (Fruitless-cons b from p e f
            (record { goes_on = rest.goes_on; no_proof = rest.no_proof }))
          on valid eq
    Ends-cons b from rounds m e f (interrupted p last code lo hi rest stop eq) =
        interrupted p last code (omega arith) (omega arith)
          (Fruitless-cons b from p e f
            (record { goes_on = rest.goes_on; no_proof = rest.no_proof }))
          stop eq
    Ends-cons b from rounds m e f (exhausted last rest eq) =
        exhausted last
          (Fruitless-cons b from (from + suc rounds) e f (record {
            goes_on = λ q lo hi. rest.goes_on q lo (omega arith);
            no_proof = λ q lo hi. rest.no_proof q lo (omega arith);
          }))
          eq

    mine_loop-Ends :
        (rounds from : ℕ) (b : Block)
        → Ends ssl host c interrupt b from rounds (mine_loop ssl host c interrupt rounds from b)
    mine_loop-Ends zero from b =
        exhausted b.proof_of_work (Fruitless-empty b from (from + 0) (omega arith))
          (unfold mine_loop in refl)
    mine_loop-Ends (suc rounds) from b =
        round (mine_loop-Ends rounds (from + 1) (with_proof b from)) (Option-cases (interrupt from))
      where
        tried : Block
        tried = with_proof b from

        round :
            Ends ssl host c interrupt tried
              (from + 1)
              rounds
              (mine_loop ssl host c interrupt rounds (from + 1) tried)
            → (interrupt from ≡ none) ⊎ ((code : ReturnCode) × (interrupt from ≡ some code))
            → Ends ssl host c interrupt b from
                (suc rounds)
                (mine_loop ssl host c interrupt (suc rounds) from b)
        round rest (inr (code, e)) =
            interrupted from b.proof_of_work code (omega arith) (omega arith)
              (Fruitless-empty b from from (omega arith)) e (loop_interrupted rounds from b code e)
        round rest (inl e) = attempt (try_proof_total tried)
          where
            attempt :
                ((r : Bool) × (try_proof ssl host c tried ≡ ok r))
                → Ends ssl host c interrupt b from
                    (suc rounds)
                    (mine_loop ssl host c interrupt (suc rounds) from b)
            attempt (true, t) =
                found from (omega arith) (omega arith) (Fruitless-empty b from from (omega arith)) e
                  t (loop_tries rounds from b e ∙ rw t)
            attempt (false, t) =
                rw (loop_tries rounds from b e, t) (Ends-cons b from rounds _ e t rest)

  -- However the stop flag behaves, mining ends with the block changed in its proof of work at most:
  -- with success at the first number below 2^64 - 1 whose hash begins with the required zero bytes,
  -- with "stopped early" at the first round that sees the flag, or with "no proof found" if there
  -- is neither in 2^64 - 1 rounds. Digests have 32 bytes and are granted their memory, and at most
  -- 32 zero bytes are required.
  pub blockchain_mine_block-Ends :
      (b : Block) (should_stop : Schedule Bool)
      → Ends ssl host c
          (λ round. stop_code (should_stop round))
          b
          0
          uint64_max
          (blockchain_mine_block ssl host (some c) b (some should_stop))
  unfolding blockchain_mine_block
  blockchain_mine_block-Ends b should_stop =
      mine_loop-Ends (λ round. stop_code (should_stop round)) uint64_max 0 b

-- Mining on a shared chain ends with the block changed in its proof of work at most: with success
-- at the first number below 2^64 - 1 whose hash begins with the required zero bytes, with "stopped
-- early" or "longer chain" at the first round that sees the flag or, without it, another version,
-- or with "no proof found" if there is neither in 2^64 - 1 rounds. Digests have 32 bytes and are
-- granted their memory, at most 32 zero bytes are required, and the mutex is locked and unlocked.
pub synchronized_blockchain_mine_block-Ends :
    (ssl : OpenSsl) (host : Host) (sync : SynchronizedBlockchain) (b : Block)
    (should_stop : Schedule Bool) (mined : Schedule ℕ)
    → HashesTo32 ssl
    → sync.blockchain.num_leading_zero_bytes ≤ 32
    → sync.locks ≡ true
    → sync.unlocks ≡ true
    → Ends ssl host sync.blockchain
        (λ round. interrupt_code (should_stop round) (mined round == sync.version round))
        b
        0
        uint64_max
        (synchronized_blockchain_mine_block ssl host (some sync) b (some should_stop) (some mined))
unfolding synchronized_blockchain_mine_block
synchronized_blockchain_mine_block-Ends ssl host sync b should_stop mined h32 small locks unlocks =
    rw (locks, unlocks)
      (mine_loop-Ends ssl host sync.blockchain h32 small
        (λ round. interrupt_code (should_stop round) (mined round == sync.version round)) uint64_max
        0 b)
