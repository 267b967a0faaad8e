-- ===== src/Verify/Spec.antt =====
-- The conditions of a valid chain, as src/blockchain.c checks them. They are the four that
-- include/blockchain.h lists, and one that it does not: the genesis block has no transactions, signed
-- or not. A coin is minted where sender and recipient are the same, as include/blockchain.h says,
-- whereas include/transaction.h says that the sender is zero.
use leocoin.Prelude.{ℕ, ◌≡◌, true, some, List, [], ◌∷◌, ◌++◌, All, replicate}
use leocoin.Result.{ok, given}
use leocoin.Endian.Memory.{Host}
use leocoin.Blockchain.{
  Sha256, Transaction, Block, amount_generated_during_minting, genesis_block_proof_of_work,
  zero_hash,
}
use leocoin.Crypto.{OpenSsl}
use leocoin.Transaction.{transaction_verify_signature}
use leocoin.Block.{hashed_memory}

-- The first `n` bytes of a hash are 0.
abbrev pub HasZeros : ℕ → Sha256 → Type 0
HasZeros n h = (rest : List ℕ) × (h ≡ replicate n 0 ++ rest)

-- The first transaction mints one coin for one key.
pub record IsMinted (ts : List Transaction) : Type 0 where
  pub minting : Transaction
  pub others : List Transaction
  pub first : ts ≡ minting ∷ others
  pub amount : minting.amount ≡ amount_generated_during_minting
  pub to_self : minting.sender_public_key ≡ minting.recipient_public_key

module _ (ssl : OpenSsl) (host : Host) where
  abbrev pub IsSigned : Transaction → Type 0
  IsSigned t = transaction_verify_signature ssl host given (some t) ≡ ok true

  -- A block that may follow one with the hash `previous`.
  pub record IsNext (n : ℕ) (previous : Sha256) (b : Block) : Type 0 where
    pub proof : HasZeros n (ssl.sha256 (hashed_memory host b))
    pub linked : b.previous_block_hash ≡ previous
    pub minted : IsMinted b.transaction_list
    pub signed : All IsSigned b.transaction_list

  abbrev pub AreNext : ℕ → Sha256 → List Block → Type 0
  AreNext n previous [] = Unit
  AreNext n previous (b ∷ bs) =
      IsNext n previous b × AreNext n (ssl.sha256 (hashed_memory host b)) bs

  pub record IsGenesis (b : Block) : Type 0 where
    pub empty : b.transaction_list ≡ []
    pub proof : b.proof_of_work ≡ genesis_block_proof_of_work
    pub unlinked : b.previous_block_hash ≡ zero_hash

  abbrev pub IsChain : ℕ → List Block → Type 0
  IsChain n [] = Unit
  IsChain n (b ∷ bs) = IsGenesis b × AreNext n (ssl.sha256 (hashed_memory host b)) bs
