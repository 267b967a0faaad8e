-- ===== src/Blockchain/Format.antt =====
-- The format of a serialized chain, as one expression, and the lengths of its parts.
use leocoin.Prelude.{ℕ, ◌+◌, ◌≡◌, refl, List, [], ◌∷◌, ◌++◌, arith, length, length-append}
use leocoin.Endian.Memory.{Host}
use leocoin.Buffer.{put_u64}
use leocoin.Buffer.Laws.{length-put_u64, put_u64_host}
use leocoin.Blockchain.{Transaction, Block, Blockchain, IsTransaction, IsBlock}
use leocoin.Blockchain.Serialize.{transaction_bytes, block_header_bytes}

pub length-transaction_bytes :
    (host : Host) (t : Transaction) → IsTransaction t → length (transaction_bytes host t) ≡ 8728
unfolding transaction_bytes
length-transaction_bytes host t v =
    let sig = put_u64 host t.sender_signature.len ++ t.sender_signature.bytes in
    let tail = put_u64 host t.amount ++ sig in
    omega (
      arith,
      length-append (put_u64 host t.created_at)
          (t.sender_public_key ++ (t.recipient_public_key ++ tail)),
      length-append t.sender_public_key (t.recipient_public_key ++ tail),
      length-append t.recipient_public_key tail,
      length-append (put_u64 host t.amount) sig,
      length-append (put_u64 host t.sender_signature.len) t.sender_signature.bytes,
      length-put_u64 host t.created_at,
      length-put_u64 host t.amount,
      length-put_u64 host t.sender_signature.len,
      v.sender_public_key,
      v.recipient_public_key,
      v.signature_bytes,
    )

unfoldable pub transactions_bytes : Host → List Transaction → List ℕ
transactions_bytes host [] = []
transactions_bytes host (t ∷ ts) = transaction_bytes host t ++ transactions_bytes host ts

unfoldable pub block_bytes : Host → Block → List ℕ
block_bytes host b = block_header_bytes host b ++ transactions_bytes host b.transaction_list

unfoldable pub blocks_bytes : Host → List Block → List ℕ
blocks_bytes host [] = []
blocks_bytes host (b ∷ bs) = block_bytes host b ++ blocks_bytes host bs

-- The format: the two numbers of the chain, then the blocks, each a header and its transactions.
unfoldable pub blockchain_bytes : Host → Blockchain → List ℕ
blockchain_bytes host c =
    (put_u64 host c.num_leading_zero_bytes ++ put_u64 host (length c.block_list))
    ++ blocks_bytes host c.block_list

pub length-block_header_bytes :
    (host : Host) (b : Block) → IsBlock b → length (block_header_bytes host b) ≡ 56
unfolding block_header_bytes
length-block_header_bytes host b v =
    let tail = put_u64 host b.proof_of_work ++ put_u64 host (length b.transaction_list) in
    omega (
      arith,
      length-append (put_u64 host b.created_at) (b.previous_block_hash ++ tail),
      length-append b.previous_block_hash tail,
      length-append (put_u64 host b.proof_of_work) (put_u64 host (length b.transaction_list)),
      length-put_u64 host b.created_at,
      length-put_u64 host b.proof_of_work,
      length-put_u64 host (length b.transaction_list),
      v.previous_block_hash,
    )

pub length-block_bytes :
    (host : Host) (b : Block)
    → IsBlock b
    → length (block_bytes host b) ≡ 56 + length (transactions_bytes host b.transaction_list)
unfolding block_bytes
length-block_bytes host b v = omega (
  arith,
  length-append (block_header_bytes host b) (transactions_bytes host b.transaction_list),
  length-block_header_bytes host b v,
)

pub length-blockchain_bytes :
    (host : Host) (c : Blockchain)
    → length (blockchain_bytes host c) ≡ 16 + length (blocks_bytes host c.block_list)
unfolding blockchain_bytes
length-blockchain_bytes host c =
    let a = put_u64 host c.num_leading_zero_bytes in
    let b = put_u64 host (length c.block_list) in
    omega (
      arith,
      length-append (a ++ b) (blocks_bytes host c.block_list),
      length-append a b,
      length-put_u64 host c.num_leading_zero_bytes,
      length-put_u64 host (length c.block_list),
    )

same_transactions :
    (a b : Host) (ts : List Transaction) → transactions_bytes a ts ≡ transactions_bytes b ts
unfolding transactions_bytes transaction_bytes
same_transactions a b [] = refl
same_transactions a b (t ∷ ts) = rw (
  put_u64_host a b t.created_at,
  put_u64_host a b t.amount,
  put_u64_host a b t.sender_signature.len,
  same_transactions a b ts,
)

same_blocks : (a b : Host) (bs : List Block) → blocks_bytes a bs ≡ blocks_bytes b bs
unfolding blocks_bytes block_bytes block_header_bytes
same_blocks a b [] = refl
same_blocks a b (x ∷ xs) = rw (
  put_u64_host a b x.created_at,
  put_u64_host a b x.proof_of_work,
  put_u64_host a b (length x.transaction_list),
  same_transactions a b x.transaction_list,
  same_blocks a b xs,
)

-- The format is the same on all hosts.
pub same_bytes : (a b : Host) (c : Blockchain) → blockchain_bytes a c ≡ blockchain_bytes b c
unfolding blockchain_bytes
same_bytes a b c = rw (
  put_u64_host a b c.num_leading_zero_bytes,
  put_u64_host a b (length c.block_list),
  same_blocks a b c.block_list,
)
