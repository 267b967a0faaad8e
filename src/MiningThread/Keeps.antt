-- ===== src/MiningThread/Keeps.antt =====
-- A round of the mining thread takes a valid chain to a valid chain.
use leocoin.Prelude.{
  ℕ, ◌≤◌, ◌≡◌, ◌⊎◌, inl, inr, refl, ap, Bool, true, false, some, List, [], ◌∷◌, ◌++◌, arith, length,
  ◌==◌,
}
use leocoin.Result.{
  ok, err, given, ReturnCode, failure_stopped_early, failure_longer_blockchain_detected,
}
use leocoin.Endian.Memory.{Host}
use leocoin.Blockchain.{Transaction, Block, Blockchain, IsBlockchain}
use leocoin.Blockchain.Codec.{GrantsUpTo}
use leocoin.Crypto.{OpenSsl, HashesTo32}
use leocoin.Block.{block_create, block_hash_lem, hashed_memory}
use leocoin.Chain.{blockchain_add_block, get_last}
use leocoin.Verify.{blockchain_is_valid_block_hash}
use leocoin.Verify.Spec.{HasZeros, IsSigned, IsNext, AreNext, IsChain}
use leocoin.Verify.Correct.{blockchain_verify_iff, leading_zeros_iff}
use leocoin.Mining.{Mined, uint64_max, with_proof, try_proof, interrupt_code}
use leocoin.Mining.Search.{
  Ends, found, interrupted, exhausted, synchronized_blockchain_mine_block-Ends,
}
use leocoin.MiningThread.{
  MineBlocksArgs, require_valid, next_block, after_mining, search_round, mine_round,
}
use leocoin.MiningThread.Signed.{KeyPair, unsigned, transaction_create_lem}

-- A list with an element has a last one.
pub get_last-some : (x : Block) (xs : List Block) → (y : Block) × (get_last (x ∷ xs) ≡ ok y)
unfolding get_last
get_last-some x [] = (x, refl)
get_last-some x (y ∷ ys) = get_last-some y ys

module _ (ssl : OpenSsl) (host : Host) where
  -- A block that may follow the last one makes the chain longer.
  AreNext-snoc :
      (n : ℕ) (x : Block) (bs : List Block) (previous b : Block)
      → get_last (x ∷ bs) ≡ ok previous
      → AreNext ssl host n (ssl.sha256 (hashed_memory host x)) bs
      → IsNext ssl host n (ssl.sha256 (hashed_memory host previous)) b
      → AreNext ssl host n (ssl.sha256 (hashed_memory host x)) (bs ++ b ∷ [])
  unfolding get_last
  AreNext-snoc n x [] previous b e h next = let same : x ≡ previous = cc in (rw same next, tt)
  AreNext-snoc n x (y ∷ ys) previous b e (h, hs) next =
      (h, AreNext-snoc n y ys previous b e hs next)

  IsChain-snoc :
      (n : ℕ) (g : Block) (bs : List Block) (previous b : Block)
      → get_last (g ∷ bs) ≡ ok previous
      → IsChain ssl host n (g ∷ bs)
      → IsNext ssl host n (ssl.sha256 (hashed_memory host previous)) b
      → IsChain ssl host n (g ∷ (bs ++ b ∷ []))
  IsChain-snoc n g bs previous b e (h, hs) next = (h, AreNext-snoc n g bs previous b e hs next)

  -- A proof of work that the miner accepts is one that the verifier accepts.
  try_proof-HasZeros :
      (c : Blockchain) (b : Block)
      → HashesTo32 ssl
      → c.num_leading_zero_bytes ≤ 32
      → try_proof ssl host c b ≡ ok true
      → HasZeros c.num_leading_zero_bytes (ssl.sha256 (hashed_memory host b))
  unfolding try_proof blockchain_is_valid_block_hash
  try_proof-HasZeros c b h32 small e =
      (leading_zeros_iff c.num_leading_zero_bytes _
          (omega (arith, h32.length_sha256 (hashed_memory host b)))).0
        (rw (block_hash_lem ssl host b h32.md_ctx_new) at e)

  module _ (args : MineBlocksArgs) where
    -- What `next_block` is made of, before its proof of work is found.
    pub record IsCandidate (previous b : Block) : Type 0 where
      pub minting : Transaction
      pub only : b.transaction_list ≡ minting ∷ []
      pub amount : minting.amount ≡ 1
      pub to_self : minting.sender_public_key ≡ minting.recipient_public_key
      pub signed : IsSigned ssl host minting
      pub signature_len : minting.sender_signature.len ≤ 512
      pub signature_bytes : length minting.sender_signature.bytes ≡ 512
      pub sender : minting.sender_public_key ≡ args.miner_public_key
      pub transaction_time : minting.created_at ≡ args.transaction_time
      pub block_time : b.created_at ≡ args.block_time
      pub linked : b.previous_block_hash ≡ ssl.sha256 (hashed_memory host previous)

    pub next_block-IsCandidate :
        (previous : Block)
        → KeyPair ssl args.miner_public_key args.miner_private_key
        → GrantsUpTo 8728 args.grants
        → (b : Block) × (next_block ssl host args previous ≡ ok b) × IsCandidate previous b
    unfolding next_block block_create
    next_block-IsCandidate previous pair grants =
        let (signature, created, signed, len, whole) =
          transaction_create_lem ssl host pair args.grants args.transaction_time
            args.miner_public_key 1 (grants 8728 (omega arith)) in
        let t : Transaction =
          record (unsigned ssl host args.transaction_time args.miner_public_key
            args.miner_public_key 1) { sender_signature = signature } in
        (
          record {
            created_at = args.block_time;
            transaction_list = t ∷ [];
            proof_of_work = 0;
            previous_block_hash = ssl.sha256 (hashed_memory host previous);
          },
          rw (
            block_hash_lem ssl host previous pair.md_ctx_new,
            grants 24 (omega arith),
            created,
            grants 16 (omega arith),
            grants 56 (omega arith),
          ),
          record {
            minting = t;
            only = refl;
            amount = refl;
            to_self = refl;
            signed = signed;
            signature_len = len;
            signature_bytes = whole;
            sender = refl;
            transaction_time = refl;
            block_time = refl;
            linked = refl;
          },
        )

    mined-IsNext :
        (n : ℕ) (previous b : Block) (p : ℕ)
        → IsCandidate previous b
        → HasZeros n (ssl.sha256 (hashed_memory host (with_proof b p)))
        → IsNext ssl host n (ssl.sha256 (hashed_memory host previous)) (with_proof b p)
    mined-IsNext n previous b p c zeros = record {
      proof = zeros;
      linked = c.linked;
      minted = record {
        minting = c.minting;
        others = [];
        first = c.only;
        amount = c.amount;
        to_self = c.to_self;
      };
      signed = rw c.only (c.signed, tt);
    }

    -- The codes with which a search is interrupted let the loop go on with its chain.
    pub after_mining-interrupted :
        (c : Blockchain) (b : Block) (stop same : Bool) (code : ReturnCode)
        → interrupt_code stop same ≡ some code
        → after_mining ssl host args c (b, err code) ≡ ok c
    unfolding after_mining
    after_mining-interrupted c b true same code e =
        let stopped : failure_stopped_early ≡ code = cc in rw⁻¹ stopped refl
    after_mining-interrupted c b false true code e = absurd cc
    after_mining-interrupted c b false false code e =
        let longer : failure_longer_blockchain_detected ≡ code = cc in rw⁻¹ longer refl

  -- What a round leaves: a valid chain, the old one or the old one with a block at its end.
  pub record IsRound (c c' : Blockchain) : Type 0 where
    pub chain : IsChain ssl host c'.num_leading_zero_bytes c'.block_list
    pub extends : (c' ≡ c) ⊎ ((b : Block) × (c' ≡ record c { block_list = c.block_list ++ b ∷ [] }))

  mined-IsRound :
      (args : MineBlocksArgs) (c : Blockchain) (g : Block) (bs : List Block) (previous b : Block)
      (m : Mined)
      → HashesTo32 ssl
      → c.num_leading_zero_bytes ≤ 32
      → args.grants 16 ≡ true
      → c.block_list ≡ g ∷ bs
      → IsChain ssl host c.num_leading_zero_bytes c.block_list
      → get_last (g ∷ bs) ≡ ok previous
      → IsCandidate args previous b
      → Ends ssl host c
          (λ round.
            interrupt_code
              (args.should_stop round)
              (args.sync_version_currently_mined round == args.sync.version round))
          b
          0
          uint64_max
          m
      → (c' : Blockchain) × (after_mining ssl host args c m ≡ ok c') × IsRound c c'
  unfolding after_mining blockchain_add_block
  mined-IsRound args c g bs previous b m h32 small g16 e chain last cand
        (found p _ _ _ _ valid' eq) =
      let next =
        mined-IsNext args c.num_leading_zero_bytes previous b p cand
          (try_proof-HasZeros c (with_proof b p) h32 small valid') in
      let longer =
        IsChain-snoc c.num_leading_zero_bytes g bs previous (with_proof b p) last (rw e at chain)
          next in
      (
        record c { block_list = c.block_list ++ with_proof b p ∷ [] },
        rw (eq, g16),
        record { chain = rw e longer; extends = inr (with_proof b p, refl) },
      )
  mined-IsRound args c g bs previous b m h32 small g16 e chain last cand
        (interrupted p q code _ _ _ stop eq) =
      (
        c,
        rw eq (after_mining-interrupted args c (with_proof b q) _ _ code stop),
        record { chain = chain; extends = inl refl },
      )
  mined-IsRound args c g bs previous b m h32 small g16 e chain last cand (exhausted q _ eq) =
      (c, rw eq, record { chain = chain; extends = inl refl })

-- A round of the mining thread on a valid chain with a genesis block returns, and the chain that it
-- returns is valid: it is the old one, or the old one with one block at its end, whatever other
-- threads write. Digests have 32 bytes and are granted their memory, at most 32 zero bytes are
-- required, the miner's keys are an RSA pair that OpenSSL reads and signs with, memory is granted
-- and the mutex is locked and unlocked.
pub mine_round-IsRound :
    (ssl : OpenSsl) (host : Host) (args : MineBlocksArgs) (g : Block) (bs : List Block)
    → HashesTo32 ssl
    → IsBlockchain args.sync.blockchain
    → args.sync.blockchain.num_leading_zero_bytes ≤ 32
    → args.sync.locks ≡ true
    → args.sync.unlocks ≡ true
    → KeyPair ssl args.miner_public_key args.miner_private_key
    → GrantsUpTo 8728 args.grants
    → args.sync.blockchain.block_list ≡ g ∷ bs
    → IsChain ssl host args.sync.blockchain.num_leading_zero_bytes args.sync.blockchain.block_list
    → (c' : Blockchain) × (mine_round ssl host args ≡ ok c')
      × IsRound ssl host args.sync.blockchain c'
unfolding mine_round search_round require_valid
mine_round-IsRound ssl host args g bs h32 v small locks unlocks pair grants e chain =
    let c = args.sync.blockchain in
    let verdict = (blockchain_verify_iff ssl host given c h32 small v).1 chain in
    let (previous, last) = get_last-some g bs in
    let (b, made, cand) = next_block-IsCandidate ssl host args previous pair grants in
    let ends =
      synchronized_blockchain_mine_block-Ends ssl host args.sync b args.should_stop
        args.sync_version_currently_mined h32 small locks unlocks in
    let (c', done, round) =
      mined-IsRound ssl host args c g bs previous b _ h32 small (grants 16 (omega arith)) e chain
        last cand ends in
    (c', rw (verdict, ap get_last e, last, made) done, round)
