-- ===== src/MiningThread/Typed.antt =====
-- A round of the mining thread keeps the values of the chain in the types of their fields.
use leocoin.Prelude.{
  ℕ, ◌+◌, ◌^◌, ◌≤◌, ◌<◌, ◌≡◌, refl, sym, ap, ◌∙◌, Bool, true, false, some, List, [], ◌∷◌, ◌++◌,
  arith, length, length-append, All, ◌==◌,
}
use leocoin.Result.{
  Result, ok, err, given, ReturnCode, failure_could_not_find_valid_proof_of_work,
  failure_stopped_early, failure_longer_blockchain_detected,
}
use leocoin.Endian.Memory.{Host}
use leocoin.Blockchain.{Transaction, Block, Blockchain, IsTransaction, IsBlock, IsBlockchain}
use leocoin.Blockchain.Codec.{GrantsUpTo}
use leocoin.Crypto.{OpenSsl, HashesTo32}
use leocoin.Block.{hashed_memory}
use leocoin.Chain.{blockchain_add_block, get_last}
use leocoin.Verify.Spec.{IsChain}
use leocoin.Verify.Correct.{blockchain_verify_iff}
use leocoin.Mining.{
  Schedule, Mined, uint64_max, with_proof, interrupt_code, synchronized_blockchain_mine_block,
}
use leocoin.Mining.Search.{
  Ends, found, interrupted, exhausted, synchronized_blockchain_mine_block-Ends,
}
use leocoin.MiningThread.{MineBlocksArgs, require_valid, after_mining, search_round, mine_round}
use leocoin.MiningThread.Signed.{KeyPair}
use leocoin.MiningThread.Keeps.{
  IsCandidate, next_block-IsCandidate, after_mining-interrupted, get_last-some, IsRound,
  mine_round-IsRound,
}

All-snoc :
    (P : Block → Type 0) (bs : List Block) (b : Block) → All P bs → P b → All P (bs ++ b ∷ [])
All-snoc P [] b h pb = (pb, tt)
All-snoc P (x ∷ bs) b (px, h) pb = (px, All-snoc P bs b h pb)

-- What `time` returns and the keys of the arguments lie in their types.
pub record IsTyped (args : MineBlocksArgs) : Type 0 where
  pub transaction_time : args.transaction_time < 2 ^ 64
  pub block_time : args.block_time < 2 ^ 64
  pub miner_public_key : length args.miner_public_key ≡ 4096

-- What a search returns where its mutex works.
pub data IsSearched : Result (Unit {0}) → Type 0 where
  search_found : IsSearched (ok tt)
  search_exhausted : IsSearched (err failure_could_not_find_valid_proof_of_work)
  search_stopped : IsSearched (err failure_stopped_early)
  search_overtaken : IsSearched (err failure_longer_blockchain_detected)

IsSearched-interrupted :
    (stop same : Bool) (code : ReturnCode)
    → interrupt_code stop same ≡ some code
    → IsSearched (err code)
IsSearched-interrupted true same code e =
    let stopped : failure_stopped_early ≡ code = cc in rw⁻¹ stopped search_stopped
IsSearched-interrupted false true code e = absurd cc
IsSearched-interrupted false false code e =
    let longer : failure_longer_blockchain_detected ≡ code = cc in rw⁻¹ longer search_overtaken

Ends-IsSearched :
    (ssl : OpenSsl) (host : Host) (c : Blockchain) (stop same : Schedule Bool) (b : Block)
    (from rounds : ℕ) (m : Mined)
    → Ends ssl host c (λ round. interrupt_code (stop round) (same round)) b from rounds m
    → IsSearched m.1
Ends-IsSearched ssl host c stop same b from rounds m (found p _ _ _ _ _ eq) = rw eq search_found
Ends-IsSearched ssl host c stop same b from rounds m (interrupted p q code _ _ _ e eq) =
    rw eq (IsSearched-interrupted (stop p) (same p) code e)
Ends-IsSearched ssl host c stop same b from rounds m (exhausted q _ eq) = rw eq search_exhausted

module _ (ssl : OpenSsl) (host : Host) (h32 : HashesTo32 ssl) (args : MineBlocksArgs)
    (typed : IsTyped args) where
  mined-IsBlock :
      (previous b : Block) (p : ℕ)
      → IsCandidate ssl host args previous b
      → p < 2 ^ 64
      → IsBlock (with_proof b p)
  mined-IsBlock previous b p c small =
      let one : IsTransaction c.minting = record {
        created_at = omega (arith, c.transaction_time, typed.transaction_time);
        sender_public_key = ap (λ (k : List ℕ). length k) c.sender ∙ typed.miner_public_key;
        recipient_public_key =
            ap (λ (k : List ℕ). length k) (sym c.to_self ∙ c.sender) ∙ typed.miner_public_key;
        amount = omega (arith, c.amount);
        signature_len = c.signature_len;
        signature_bytes = c.signature_bytes;
      } in
      record {
        created_at = omega (arith, c.block_time, typed.block_time);
        transaction_list = rw c.only (one, tt);
        num_transactions = omega (arith, ap (λ (ts : List Transaction). length ts) c.only);
        proof_of_work = small;
        previous_block_hash =
            ap (λ (k : List ℕ). length k) c.linked
            ∙ h32.length_sha256 (hashed_memory host previous);
      }

  mined-IsBlockchain :
      (c : Blockchain) (previous b : Block) (m : Mined)
      → IsBlockchain c
      → length c.block_list + 1 < 2 ^ 64
      → args.grants 16 ≡ true
      → IsCandidate ssl host args previous b
      → Ends ssl host c
          (λ round.
            interrupt_code
              (args.should_stop round)
              (args.sync_version_currently_mined round == args.sync.version round))
          b
          0
          uint64_max
          m
      → (c' : Blockchain) × (after_mining ssl host args c m ≡ ok c') × IsBlockchain c'
  unfolding after_mining blockchain_add_block
  mined-IsBlockchain c previous b m v room g16 cand (found p _ small _ _ _ eq) =
      let block = mined-IsBlock previous b p cand (omega arith) in
      (
        record c { block_list = c.block_list ++ with_proof b p ∷ [] },
        rw (eq, g16),
        record {
          block_list = All-snoc IsBlock c.block_list (with_proof b p) v.block_list block;
          num_blocks = omega (arith, length-append c.block_list (with_proof b p ∷ []));
          num_leading_zero_bytes = v.num_leading_zero_bytes;
        },
      )
  mined-IsBlockchain c previous b m v room g16 cand (interrupted p q code _ _ _ stop eq) =
      (c, rw eq (after_mining-interrupted ssl host args c (with_proof b q) _ _ code stop), v)
  mined-IsBlockchain c previous b m v room g16 cand (exhausted q _ eq) = (c, rw eq, v)

-- What a round on a valid chain comes to, step by step.
pub record RoundEnds (ssl : OpenSsl) (host : Host) (args : MineBlocksArgs) : Type 0 where
  pub mined : Mined
  pub is_searched : IsSearched mined.1
  pub searched : search_round ssl host args ≡ ok mined
  pub left : Blockchain
  pub added : after_mining ssl host args args.sync.blockchain mined ≡ ok left
  pub typed : IsBlockchain left
  pub round : IsRound ssl host args.sync.blockchain left

pub mine_round-RoundEnds :
    (ssl : OpenSsl) (host : Host) (args : MineBlocksArgs) (g : Block) (bs : List Block)
    → HashesTo32 ssl
    → IsTyped args
    → IsBlockchain args.sync.blockchain
    → length args.sync.blockchain.block_list + 1 < 2 ^ 64
    → args.sync.blockchain.num_leading_zero_bytes ≤ 32
    → args.sync.locks ≡ true
    → args.sync.unlocks ≡ true
    → KeyPair ssl args.miner_public_key args.miner_private_key
    → GrantsUpTo 8728 args.grants
    → args.sync.blockchain.block_list ≡ g ∷ bs
    → IsChain ssl host args.sync.blockchain.num_leading_zero_bytes args.sync.blockchain.block_list
    → RoundEnds ssl host args
unfolding mine_round search_round require_valid
mine_round-RoundEnds ssl host args g bs h32 typed v room small locks unlocks pair grants e chain =
    let c = args.sync.blockchain in
    let verdict = (blockchain_verify_iff ssl host given c h32 small v).1 chain in
    let (previous, last) = get_last-some g bs in
    let (b, made, cand) = next_block-IsCandidate ssl host args previous pair grants in
    let m =
      synchronized_blockchain_mine_block ssl host (some args.sync) b (some args.should_stop)
        (some args.sync_version_currently_mined) in
    let ends =
      synchronized_blockchain_mine_block-Ends ssl host args.sync b args.should_stop
        args.sync_version_currently_mined h32 small locks unlocks in
    let (c', done, kept) =
      mined-IsBlockchain ssl host h32 args typed c previous b m v room (grants 16 (omega arith))
        cand ends in
    let searched : search_round ssl host args ≡ ok m =
      rw (verdict, ap get_last e, last, made) refl in
    let (c'', round, is_round) =
      mine_round-IsRound ssl host args g bs h32 v small locks unlocks pair grants e chain in
    let whole : mine_round ssl host args ≡ ok c' = unfold mine_round in rw searched done in
    let same : c'' ≡ c' = cc (round, whole) in
    record {
      mined = m;
      is_searched =
          Ends-IsSearched ssl host c args.should_stop
            (λ round. args.sync_version_currently_mined round == args.sync.version round) b 0
            uint64_max m ends;
      searched = searched;
      left = c';
      added = done;
      typed = kept;
      round = rw same at is_round;
    }
