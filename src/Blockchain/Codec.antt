-- ===== src/Blockchain/Codec.antt =====
-- `blockchain_serialize` writes the format, so `blockchain_deserialize` after it is the identity.
use leocoin.Prelude.{
  ℕ, ◌+◌, ◌%◌, ◌≤◌, ◌<◌, ◌^◌, ◌≡◌, refl, sym, true, some, List, [], ◌∷◌, ◌++◌, append_assoc,
  append-nil, arith, leb, length, length-append, All,
}
use leocoin.Result.{Result, ok, Allocator, given}
use leocoin.Endian.Memory.{Host}
use leocoin.Buffer.{put_u64}
use leocoin.Blockchain.{Transaction, Block, Blockchain, IsTransaction, IsBlock, IsBlockchain}
use leocoin.Blockchain.Serialize.{
  transaction_bytes, block_header_bytes, grow, serialize_transactions, serialize_blocks,
  blockchain_serialize,
}
use leocoin.Blockchain.Deserialize.{Heap, blockchain_deserialize}
use leocoin.Blockchain.Format.{
  transactions_bytes, block_bytes, blocks_bytes, blockchain_bytes, length-transaction_bytes,
  length-block_bytes, length-blockchain_bytes, same_bytes,
}
use leocoin.Blockchain.Roundtrip.{Grants, read_blockchain-blockchain_bytes}

-- Requests of up to `n` bytes are granted.
abbrev pub GrantsUpTo : ℕ → Allocator → Type 0
GrantsUpTo n grants = (m : ℕ) → m ≤ n → grants m ≡ true

written :
    {a b : List ℕ} {m n : ℕ} → a ≡ b → m ≡ n → ◌≡◌ {A = Result (List ℕ × ℕ)} (ok (a, m)) (ok (b, n))
written p q = λ i. ok (p i, q i)

module _ (grants : Allocator) (host : Host) (total : ℕ) (fits : total < 2 ^ 64)
    (granted : GrantsUpTo total grants) where
  pub grow_lem : (size n : ℕ) → size + n ≤ total → grow grants size n ≡ ok (size + n)
  unfolding grow
  grow_lem size n h =
      let sum : (size + n) % 2 ^ 64 ≡ size + n = omega arith in
      let room : leb (size + n) (size + n) ≡ true = ground arith in
      rw (sum, granted (size + n) h, room)

  serialize_transactions_lem :
      (ts : List Transaction) (buffer : List ℕ) (size : ℕ)
      → All IsTransaction ts
      → size + length (transactions_bytes host ts) ≤ total
      → serialize_transactions grants host ts buffer size
        ≡ ok (buffer ++ transactions_bytes host ts, size + length (transactions_bytes host ts))
  unfolding serialize_transactions transactions_bytes
  serialize_transactions_lem [] buffer size v h = written (sym (append-nil buffer)) (omega arith)
  serialize_transactions_lem (t ∷ ts) buffer size (v, vs) h =
      let front = transaction_bytes host t in
      let one = length-transaction_bytes host t v in
      let sum = length-append (transaction_bytes host t) (transactions_bytes host ts) in
      rw
        (
          grow_lem size 8728 (omega (arith, one, sum)),
          serialize_transactions_lem ts (buffer ++ transaction_bytes host t) (size + 8728) vs
              (omega (arith, one, sum)),
        )
        (written (append_assoc buffer front (transactions_bytes host ts)) (omega (arith, one, sum)))

  serialize_blocks_lem :
      (bs : List Block) (buffer : List ℕ) (size : ℕ)
      → All IsBlock bs
      → size + length (blocks_bytes host bs) ≤ total
      → serialize_blocks grants host bs buffer size
        ≡ ok (buffer ++ blocks_bytes host bs, size + length (blocks_bytes host bs))
  unfolding serialize_blocks blocks_bytes
  serialize_blocks_lem [] buffer size v h = written (sym (append-nil buffer)) (omega arith)
  serialize_blocks_lem (b ∷ bs) buffer size (v, vs) h =
      let head = block_header_bytes host b in
      let txs = transactions_bytes host b.transaction_list in
      let one = length-block_bytes host b v in
      let sum = length-append (block_bytes host b) (blocks_bytes host bs) in
      rw
        (
          grow_lem size 56 (omega (arith, one, sum)),
          serialize_transactions_lem b.transaction_list (buffer ++ head) (size + 56)
              v.transaction_list (omega (arith, one, sum)),
          serialize_blocks_lem bs (buffer ++ head ++ txs) (size + 56 + length txs) vs
              (omega (arith, one, sum)),
        )
        (written (unfold block_bytes in simp append_assoc) (omega (arith, one, sum)))

pub blockchain_serialize_lem :
    (grants : Allocator) (host : Host) (c : Blockchain)
    → IsBlockchain c
    → length (blockchain_bytes host c) < 2 ^ 64
    → GrantsUpTo (length (blockchain_bytes host c)) grants
    → blockchain_serialize grants host (some c) given given
      ≡ ok (blockchain_bytes host c, length (blockchain_bytes host c))
blockchain_serialize_lem grants host c v fits granted =
    let n = length-blockchain_bytes host c in
    let head = put_u64 host c.num_leading_zero_bytes ++ put_u64 host (length c.block_list) in
    let blocks =
      serialize_blocks_lem grants host (length (blockchain_bytes host c)) fits granted c.block_list
        head 16 v.block_list (omega (arith, n)) in
    unfold blockchain_serialize in
    rw (granted 16 (omega (arith, n)), blocks) (written (unfold blockchain_bytes in refl) (sym n))

-- The format is read, whatever host has written it.
pub blockchain_deserialize_lem :
    (heap : Heap) (sender receiver : Host) (c : Blockchain) (rest : List ℕ) (size : ℕ)
    → IsBlockchain c
    → Grants heap
    → length (blockchain_bytes sender c) ≤ size
    → blockchain_deserialize heap receiver given (some (blockchain_bytes sender c ++ rest)) size
      ≡ ok c
unfolding blockchain_deserialize
blockchain_deserialize_lem heap sender receiver c rest size v all room =
    rw (same_bytes sender receiver c) (
      rw (
        read_blockchain-blockchain_bytes heap receiver size all c rest v
          (rw (same_bytes sender receiver c) at room)))

-- A chain of well-formed blocks that `blockchain_serialize` writes is read back by
-- `blockchain_deserialize` as it was, also with more behind it and on a host of the other byte
-- order, and the size that the serializer returns is the number of bytes that it wrote. The
-- serialized chain has less than 2^64 bytes, and the requests for memory are granted.
pub blockchain_deserialize-serialize :
    (grants : Allocator) (heap : Heap) (sender receiver : Host) (c : Blockchain) (rest : List ℕ)
    (size : ℕ)
    → IsBlockchain c
    → length (blockchain_bytes sender c) < 2 ^ 64
    → GrantsUpTo (length (blockchain_bytes sender c)) grants
    → Grants heap
    → length (blockchain_bytes sender c) ≤ size
    → (bytes : List ℕ) × (blockchain_serialize grants sender (some c) given given
        ≡ ok (bytes, length bytes))
      × (blockchain_deserialize heap receiver given (some (bytes ++ rest)) size ≡ ok c)
blockchain_deserialize-serialize grants heap sender receiver c rest size v fits granted all room = (
  blockchain_bytes sender c,
  blockchain_serialize_lem grants sender c v fits granted,
  blockchain_deserialize_lem heap sender receiver c rest size v all room,
)
