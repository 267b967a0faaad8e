-- ===== src/Blockchain/Serialize.antt =====
-- `blockchain_serialize` of src/blockchain.c: one buffer, grown by `realloc` for each block and each
-- transaction.
use leocoin.Prelude.{ℕ, ◌+◌, ◌%◌, ◌^◌, List, [], ◌∷◌, ◌++◌, leb, if◌then◌else◌, length}
use leocoin.Result.{
  Result, ok, fault, ◌>>=◌, ◌>>◌, Pointer, Out, non_null, writable, Allocator, malloc,
}
use leocoin.Endian.Memory.{Host}
use leocoin.Buffer.{put_u64}
use leocoin.Blockchain.{Transaction, Block, Blockchain}

-- The fields of a transaction, and those of a block before its transactions, in the order in which
-- they are written.
unfoldable pub transaction_bytes : Host → Transaction → List ℕ
transaction_bytes host t =
    put_u64 host t.created_at
    ++ (t.sender_public_key
        ++ (t.recipient_public_key
            ++ (put_u64 host t.amount
                ++ (put_u64 host t.sender_signature.len ++ t.sender_signature.bytes))))

unfoldable pub block_header_bytes : Host → Block → List ℕ
block_header_bytes host b =
    put_u64 host b.created_at
    ++ (b.previous_block_hash
        ++ (put_u64 host b.proof_of_work ++ put_u64 host (length b.transaction_list)))

abbrev pub sizeof_serialized_transaction : ℕ
sizeof_serialized_transaction = 8728

abbrev pub sizeof_serialized_block_header : ℕ
sizeof_serialized_block_header = 56

-- `size += n; buffer = realloc(buffer, size)`, and a fault where the sum wraps, since the writes
-- that follow at the old end are then outside the new object.
unfoldable pub grow : Allocator → ℕ → ℕ → Result ℕ
grow grants size n =
    let size' = (size + n) % 2 ^ 64 in
    malloc grants size' >> (if leb (size + n) size' then ok size' else fault)

-- The loop over the transactions of a block. The buffer grows by what is written at its end.
unfoldable pub serialize_transactions :
    Allocator → Host → List Transaction → List ℕ → ℕ → Result (List ℕ × ℕ)
unfolding grow transaction_bytes
serialize_transactions grants host [] buffer size = ok (buffer, size)
serialize_transactions grants host (t ∷ ts) buffer size = do
  size' ← grow grants size sizeof_serialized_transaction
  serialize_transactions grants host ts (buffer ++ transaction_bytes host t) size'

unfoldable pub serialize_blocks : Allocator → Host → List Block → List ℕ → ℕ → Result (List ℕ × ℕ)
unfolding grow block_header_bytes serialize_transactions
serialize_blocks grants host [] buffer size = ok (buffer, size)
serialize_blocks grants host (b ∷ bs) buffer size = do
  size' ← grow grants size sizeof_serialized_block_header
  (buffer', size'') ←
      serialize_transactions grants host b.transaction_list (buffer ++ block_header_bytes host b)
        size'
  serialize_blocks grants host bs buffer' size''

-- The bytes of the new buffer, and their number.
unfoldable pub blockchain_serialize :
    Allocator → Host → Pointer Blockchain → Out → Out → Result (List ℕ × ℕ)
unfolding serialize_blocks
blockchain_serialize grants host blockchain buffer buffer_size = do
  c ← non_null blockchain
  writable buffer
  writable buffer_size
  malloc grants 16
  serialize_blocks grants host c.block_list
      (put_u64 host c.num_leading_zero_bytes ++ put_u64 host (length c.block_list)) 16
