-- ===== src/MiningThread/Unreported.antt =====
-- A block without transactions makes the mining thread read through a NULL pointer.
use leocoin.Prelude.{
  ℕ, ◌≤◌, ◌≡◌, refl, ap, none, some, List, [], ◌∷◌, ◌++◌, arith, length, All, bytes_eq_iff, ==_iff,
}
use leocoin.Result.{ok, fault, Out, given}
use leocoin.Endian.Memory.{Host}
use leocoin.Blockchain.{Block, IsBlock, IsBlockchain, zero_hash, genesis_block_proof_of_work}
use leocoin.Crypto.{OpenSsl, HashesTo32}
use leocoin.Block.{block_hash_lem, hashed_memory}
use leocoin.Chain.{get_last}
use leocoin.Verify.{
  invalid, is_empty, verify_minting, verify_block, verify_blocks, verify_chain, blockchain_verify,
}
use leocoin.Verify.Spec.{HasZeros, AreNext, IsChain}
use leocoin.Verify.Correct.{
  verify_blocks_step, memcmp_eq-whole, memcmp_eq-leading_zeros, leading_zeros_iff, verify_block_iff,
}
use leocoin.MiningThread.{MineBlocksArgs, require_valid, search_round, mine_round}

module _ (ssl : OpenSsl) (host : Host) where
  -- A block that is hashed and linked as it has to be, but has no transactions.
  pub record IsEmptyNext (n : ℕ) (previous b : Block) : Type 0 where
    pub proof : HasZeros n (ssl.sha256 (hashed_memory host b))
    pub linked : b.previous_block_hash ≡ ssl.sha256 (hashed_memory host previous)
    pub empty : b.transaction_list ≡ []

  module _ (out : Out) (h32 : HashesTo32 ssl) (n : ℕ) (small : n ≤ 32) where
    verify_block-empty :
        (previous b : Block)
        → IsBlock b
        → IsEmptyNext n previous b
        → verify_block ssl host out n (ssl.sha256 (hashed_memory host previous)) b
          ≡ ok (invalid none)
    unfolding verify_block verify_minting
    verify_block-empty previous b v e =
        let hash = ssl.sha256 (hashed_memory host b) in
        let before = ssl.sha256 (hashed_memory host previous) in
        let long : n ≤ length hash = omega (arith, h32.length_sha256 (hashed_memory host b)) in
        rw (
          block_hash_lem ssl host b h32.md_ctx_new,
          memcmp_eq-leading_zeros n 32 hash long small,
          (leading_zeros_iff n hash long).1 e.proof,
          memcmp_eq-whole b.previous_block_hash before 32 v.previous_block_hash
              (h32.length_sha256 (hashed_memory host previous)),
          (bytes_eq_iff b.previous_block_hash before).1 e.linked,
          e.empty,
        )

    -- The verifier comes to the empty block behind valid ones.
    verify_blocks-empty :
        (x : Block) (bs : List Block) (previous b : Block) (cs : List Block)
        → get_last (x ∷ bs) ≡ ok previous
        → All IsBlock (bs ++ b ∷ cs)
        → AreNext ssl host n (ssl.sha256 (hashed_memory host x)) bs
        → IsEmptyNext n previous b
        → verify_blocks ssl host out n (ssl.sha256 (hashed_memory host x)) (bs ++ b ∷ cs)
          ≡ ok (invalid none)
    unfolding get_last
    verify_blocks-empty x [] previous b cs last (v, vs) next e =
        let same : x ≡ previous = cc in
        rw (
          verify_blocks_step ssl host out h32 n (ssl.sha256 (hashed_memory host x)) b cs,
          same,
          verify_block-empty previous b v e,
        )
    verify_blocks-empty x (y ∷ ys) previous b cs last (v, vs) (next, rest) e =
        let here =
          verify_block_iff ssl host out h32 n (ssl.sha256 (hashed_memory host x)) y small
            (h32.length_sha256 (hashed_memory host x)) v in
        rw (
          verify_blocks_step ssl host out h32 n (ssl.sha256 (hashed_memory host x)) y
              (ys ++ b ∷ cs),
          here.1 next,
          verify_blocks-empty y ys previous b cs last vs rest e,
        )

    verify_chain-empty :
        (g : Block) (bs : List Block) (previous b : Block) (cs : List Block)
        → get_last (g ∷ bs) ≡ ok previous
        → All IsBlock (g ∷ (bs ++ b ∷ cs))
        → IsChain ssl host n (g ∷ bs)
        → IsEmptyNext n previous b
        → verify_chain ssl host out n (g ∷ (bs ++ b ∷ cs)) ≡ ok (invalid none)
    unfolding verify_chain
    verify_chain-empty g bs previous b cs last (v, vs) (genesis, chain) e =
        rw
          (
            block_hash_lem ssl host g h32.md_ctx_new,
            ap is_empty genesis.empty,
            (==_iff g.proof_of_work genesis_block_proof_of_work).1 genesis.proof,
            memcmp_eq-whole g.previous_block_hash zero_hash 32 v.previous_block_hash refl,
            (bytes_eq_iff g.previous_block_hash zero_hash).1 genesis.unlinked,
          )
          (verify_blocks-empty g bs previous b cs last vs chain e)

-- On a chain whose first invalid block has the proof of work and the hash of the block before it,
-- but no transactions, `blockchain_verify` answers "invalid" without reporting a block, and a round
-- of the mining thread ends in a memory error: it prints fields of the block that was not reported.
-- The blocks before that one are a valid chain, digests have 32 bytes and are granted their memory,
-- and at most 32 zero bytes are required.
pub mine_round_unreported :
    (ssl : OpenSsl) (host : Host) (args : MineBlocksArgs) (g : Block) (bs : List Block)
    (previous b : Block) (cs : List Block)
    → HashesTo32 ssl
    → IsBlockchain args.sync.blockchain
    → args.sync.blockchain.num_leading_zero_bytes ≤ 32
    → args.sync.blockchain.block_list ≡ g ∷ (bs ++ b ∷ cs)
    → get_last (g ∷ bs) ≡ ok previous
    → IsChain ssl host args.sync.blockchain.num_leading_zero_bytes (g ∷ bs)
    → IsEmptyNext ssl host args.sync.blockchain.num_leading_zero_bytes previous b
    → (blockchain_verify ssl host given (some args.sync.blockchain) given ≡ ok (invalid none))
      × (mine_round ssl host args ≡ fault)
unfolding blockchain_verify mine_round search_round require_valid
mine_round_unreported ssl host args g bs previous b cs h32 v small e last chain empty =
    let c = args.sync.blockchain in
    let verdict =
      verify_chain-empty ssl host given h32 c.num_leading_zero_bytes small g bs previous b cs last
        (rw e at v.block_list) chain empty in
    (rw e verdict, rw (e, verdict))
