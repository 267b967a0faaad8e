-- ===== src/Block.antt =====
-- src/block.c.
use leocoin.Prelude.{ℕ, ◌≡◌, ap, Bool, true, some, List, [], ◌∷◌, ◌++◌, if◌then◌else◌}
use leocoin.Result.{
  Result, ok, fault, ◌>>=◌, ◌>>◌, Pointer, Out, given, non_null, writable, Allocator, malloc,
}
use leocoin.Endian.Memory.{Host, memory_of}
use leocoin.Blockchain.{Sha256, Transaction, Block, genesis_block_proof_of_work, zero_hash}
use leocoin.Crypto.{OpenSsl}
use leocoin.Transaction.{transaction_memory}

-- `now` is what `time(NULL)` returns.
unfoldable pub block_create :
    Allocator → (now : ℕ) → Out → Pointer (List Transaction) → ℕ → Sha256 → Result Block
block_create grants now block transaction_list proof_of_work previous_block_hash = do
  writable block
  transactions ← non_null transaction_list
  malloc grants 56
  ok (record {
    created_at = now;
    transaction_list = transactions;
    proof_of_work = proof_of_work;
    previous_block_hash = previous_block_hash;
  })

-- The list that `linked_list_create` allocates is empty.
unfoldable pub block_create_genesis_block : Allocator → (now : ℕ) → Out → Result Block
unfolding block_create
block_create_genesis_block grants now block = do
  writable block
  malloc grants 24
  block_create grants now block (some []) genesis_block_proof_of_work zero_hash

unfoldable pub transactions_memory : Host → List Transaction → List ℕ
transactions_memory host [] = []
transactions_memory host (t ∷ ts) = transaction_memory host t ++ transactions_memory host ts

-- The bytes that the calls of `EVP_DigestUpdate` hand over: the block's fields as they stand in the
-- memory of the host, then each transaction's struct.
unfoldable pub hashed_memory : Host → Block → List ℕ
unfolding transactions_memory
hashed_memory host b =
    memory_of host 8 b.created_at
    ++ (memory_of host 8 b.proof_of_work
        ++ (b.previous_block_hash ++ transactions_memory host b.transaction_list))

unfoldable pub block_hash : OpenSsl → Host → Pointer Block → Out → Result Sha256
unfolding hashed_memory
block_hash ssl host block hash = do
  b ← non_null block
  writable hash
  if ssl.md_ctx_new then ok (ssl.sha256 (hashed_memory host b)) else fault

-- With memory for the context.
pub block_hash_lem :
    (ssl : OpenSsl) (host : Host) (b : Block)
    → ssl.md_ctx_new ≡ true
    → block_hash ssl host (some b) given ≡ ok (ssl.sha256 (hashed_memory host b))
unfolding block_hash
block_hash_lem ssl host b granted =
    ap (λ (grants : Bool). if grants then ok (ssl.sha256 (hashed_memory host b)) else fault) granted
