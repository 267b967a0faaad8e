-- ===== src/Verify.antt =====
-- `blockchain_verify` and `blockchain_is_valid_block_hash` of src/blockchain.c.
pub mod Spec
pub mod Correct
use leocoin.Prelude.{
  ℕ, zero, suc, ◌≡◌, Bool, true, false, not, ◌&&◌, Option, none, some, List, [], ◌∷◌, ◌==◌,
  if◌then◌else◌, split_at?, bytes_eq,
}
use leocoin.Result.{
  Result, ok, err, fault, ◌>>=◌, ◌>>◌, Pointer, Out, null, given, non_null, writable,
}
use leocoin.Endian.Memory.{Host}
use leocoin.Blockchain.{
  Sha256, Transaction, Block, Blockchain, max_ssh_key_length, sha256_digest_length,
  amount_generated_during_minting, genesis_block_proof_of_work, zero_hash,
}
use leocoin.Crypto.{OpenSsl}
use leocoin.Transaction.{bytes_at, transaction_verify_signature}
use leocoin.Block.{block_hash}

-- `0 == memcmp(a, b, n)`, a fault where one of the objects has fewer than `n` bytes.
unfoldable pub memcmp_eq : List ℕ → List ℕ → ℕ → Result Bool
memcmp_eq a b n = do x ← bytes_at n a; y ← bytes_at n b; ok (bytes_eq x y)

-- The loop over the first `n` bytes of the digest, with its `break` at one that is not 0.
unfoldable pub leading_zeros : ℕ → List ℕ → Result Bool
leading_zeros zero digest = ok true
leading_zeros (suc n) [] = fault
leading_zeros (suc n) (b ∷ digest) =
    let more = leading_zeros n digest in if b == 0 then more else ok false

unfoldable pub blockchain_is_valid_block_hash : Pointer Blockchain → Sha256 → Out → Result Bool
unfolding leading_zeros
blockchain_is_valid_block_hash blockchain block_hash is_valid_block_hash = do
  c ← non_null blockchain
  writable is_valid_block_hash
  leading_zeros c.num_leading_zero_bytes block_hash

-- `*is_valid_blockchain`, and where it is false what `*first_invalid_block` is set to, if to anything.
pub data Verdict : Type 0 where
  valid : Verdict
  invalid : Pointer Block → Verdict

-- `if (NULL != first_invalid_block) { *first_invalid_block = block; }`
abbrev pub report : Out → Block → Verdict
report null b = invalid none
report given b = invalid (some b)

abbrev pub is_empty : List Transaction → Bool
is_empty [] = true
is_empty (_ ∷ _) = false

module _ (ssl : OpenSsl) (host : Host) (first_invalid_block : Out) where
  -- The loop over a block's transactions.
  unfoldable pub verify_transactions : Block → List Transaction → Result Verdict
  verify_transactions b [] = ok valid
  verify_transactions b (t ∷ ts) =
      let more = verify_transactions b ts in
      (do
        is_valid_signature ← transaction_verify_signature ssl host given (some t)
        if is_valid_signature then more else ok (report first_invalid_block b))

  -- The checks of a block's transactions: the minting transaction, then every signature. A block
  -- with no transaction is invalid and is not reported.
  unfoldable pub verify_minting : Block → List Transaction → Result Verdict
  unfolding verify_transactions
  verify_minting b [] = ok (invalid none)
  verify_minting b (minting ∷ ts) =
      if minting.amount == amount_generated_during_minting
      then (do
        to_self ←
            memcmp_eq minting.sender_public_key minting.recipient_public_key max_ssh_key_length
        if to_self then verify_transactions b (minting ∷ ts) else ok (report first_invalid_block b))
      else ok (report first_invalid_block b)

  -- The checks of a block behind the one with the hash `previous`.
  unfoldable pub verify_block : ℕ → Sha256 → Block → Result Verdict
  unfolding verify_minting memcmp_eq
  verify_block n previous b = do
    hash ← block_hash ssl host (some b) given
    zeros ← memcmp_eq hash zero_hash n
    if not zeros then ok (report first_invalid_block b) else do
      linked ← memcmp_eq b.previous_block_hash previous sha256_digest_length
      if not linked then ok (report first_invalid_block b) else verify_minting b b.transaction_list

  abbrev pub next_if_valid : Result Verdict → Result Verdict → Result Verdict
  next_if_valid (ok valid) rest = rest
  next_if_valid (ok (invalid b)) rest = ok (invalid b)
  next_if_valid (err e) rest = err e
  next_if_valid fault rest = fault

  -- The loop over the blocks behind the genesis block.
  unfoldable pub verify_blocks : ℕ → Sha256 → List Block → Result Verdict
  unfolding verify_block
  verify_blocks n previous [] = ok valid
  verify_blocks n previous (b ∷ bs) = do
    hash ← block_hash ssl host (some b) given
    let rest = verify_blocks n hash bs
    next_if_valid (verify_block n previous b) rest

  unfoldable pub verify_chain : ℕ → List Block → Result Verdict
  unfolding verify_blocks memcmp_eq
  verify_chain n [] = ok valid
  verify_chain n (genesis ∷ bs) =
      if is_empty genesis.transaction_list && (genesis.proof_of_work == genesis_block_proof_of_work)
      then (do
        unlinked ← memcmp_eq genesis.previous_block_hash zero_hash sha256_digest_length
        if unlinked
            then (do hash ← block_hash ssl host (some genesis) given; verify_blocks n hash bs)
            else ok (report first_invalid_block genesis))
      else ok (report first_invalid_block genesis)

  unfoldable pub blockchain_verify : Pointer Blockchain → Out → Result Verdict
  unfolding verify_chain
  blockchain_verify blockchain is_valid_blockchain = do
    c ← non_null blockchain
    writable is_valid_blockchain
    verify_chain c.num_leading_zero_bytes c.block_list
