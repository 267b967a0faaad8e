-- ===== src/Blockchain/Roundtrip.antt =====
-- A chain that is serialized is read back as it was.
use leocoin.Prelude.{
  ℕ, ◌+◌, ◌≤◌, ◌≡◌, ap, ◌∙◌, true, List, [], ◌∷◌, ◌++◌, append_assoc, arith, leb, length,
  length-append, All,
}
use leocoin.Result.{ok}
use leocoin.Endian.Memory.{Host}
use leocoin.Buffer.{cursor, check_room, put_u64}
use leocoin.Buffer.Laws.{read_u64-put_u64, field-append, take-append}
use leocoin.Blockchain.{Transaction, Block, Blockchain, IsTransaction, IsBlock, IsBlockchain}
use leocoin.Blockchain.Serialize.{transaction_bytes, block_header_bytes}
use leocoin.Blockchain.Format.{
  transactions_bytes, block_bytes, blocks_bytes, blockchain_bytes, length-transaction_bytes,
  length-block_bytes, length-blockchain_bytes,
}
use leocoin.Blockchain.Deserialize.{
  Heap, Request, read_transaction, read_transactions, read_block, read_blocks, read_blockchain,
}

-- Every request of the deserializer is granted.
abbrev pub Grants : Heap → Type 0
Grants heap = (offset : ℕ) (request : Request) → heap offset request ≡ true

module _ (heap : Heap) (host : Host) (size : ℕ) (granted : Grants heap) where
  pub read_transaction-transaction_bytes :
      (t : Transaction) (off : ℕ) (rest : List ℕ)
      → IsTransaction t
      → off + 8728 ≤ size
      → read_transaction heap host size (cursor off (transaction_bytes host t ++ rest))
        ≡ ok (t, cursor (off + 8728) rest)
  unfolding read_transaction transaction_bytes check_room
  read_transaction-transaction_bytes t off rest v fits =
      let tail = t.sender_signature.bytes ++ rest in
      let sig = put_u64 host t.sender_signature.len ++ tail in
      let amount = put_u64 host t.amount ++ sig in
      let short : leb t.sender_signature.len 4096 ≡ true = ground (arith, v.signature_len) in
      let room : leb (off + 8 + 4096 + 4096 + 8 + 8 + t.sender_signature.len) size ≡ true =
        ground (arith, v.signature_len) in
      let end : off + 8 + 4096 + 4096 + 8 + 8 + 512 ≡ off + 8728 = omega arith in
      rw (granted off Request.transaction_struct) (
        simp append_assoc (
          rw
            (
              read_u64-put_u64 host size t.created_at off
                  (t.sender_public_key ++ (t.recipient_public_key ++ amount)) v.created_at
                  (omega arith),
              field-append size t.sender_public_key (t.recipient_public_key ++ amount) (off + 8)
                  4096 v.sender_public_key (omega arith),
              field-append size t.recipient_public_key amount (off + 8 + 4096) 4096
                  v.recipient_public_key (omega arith),
              read_u64-put_u64 host size t.amount (off + 8 + 4096 + 4096) sig v.amount
                  (omega arith),
              read_u64-put_u64 host size t.sender_signature.len (off + 8 + 4096 + 4096 + 8) tail
                  (omega (arith, v.signature_len)) (omega arith),
              short,
              room,
              take-append t.sender_signature.bytes rest (off + 8 + 4096 + 4096 + 8 + 8) 512
                  v.signature_bytes,
              granted (off + 8 + 4096 + 4096 + 8 + 8 + 512) Request.transaction_node,
            )
            (ap (λ (o : ℕ). ok (t, cursor o rest)) end)))

  read_transactions-transactions_bytes :
      (ts : List Transaction) (off : ℕ) (rest : List ℕ)
      → All IsTransaction ts
      → off + length (transactions_bytes host ts) ≤ size
      → read_transactions heap host size
          (length ts)
          (cursor off (transactions_bytes host ts ++ rest))
        ≡ ok (ts, cursor (off + length (transactions_bytes host ts)) rest)
  unfolding read_transactions transactions_bytes
  read_transactions-transactions_bytes [] off rest v fits =
      ap (λ (o : ℕ). ok ([], cursor o rest)) (omega arith)
  read_transactions-transactions_bytes (t ∷ ts) off rest (v, vs) fits =
      let one = length-transaction_bytes host t v in
      let sum = length-append (transaction_bytes host t) (transactions_bytes host ts) in
      rw
        (
          append_assoc (transaction_bytes host t) (transactions_bytes host ts) rest,
          read_transaction-transaction_bytes t off (transactions_bytes host ts ++ rest) v
              (omega (arith, one, sum)),
          read_transactions-transactions_bytes ts (off + 8728) rest vs (omega (arith, one, sum)),
        )
        (ap (λ (o : ℕ). ok (t ∷ ts, cursor o rest)) (omega (arith, one, sum)))

  pub read_block-block_bytes :
      (b : Block) (off : ℕ) (rest : List ℕ)
      → IsBlock b
      → off + length (block_bytes host b) ≤ size
      → read_block heap host size (cursor off (block_bytes host b ++ rest))
        ≡ ok (b, cursor (off + length (block_bytes host b)) rest)
  read_block-block_bytes b off rest v fits =
      let n = length-block_bytes host b v in
      rw n (read_parts (omega (arith, n)) ∙ ap (λ (o : ℕ). ok (b, cursor o rest)) (omega arith))
    where
      txs : List ℕ
      txs = transactions_bytes host b.transaction_list

      read_parts :
          off + 56 + length txs ≤ size
          → read_block heap host size (cursor off (block_bytes host b ++ rest))
            ≡ ok (b, cursor (off + 8 + 32 + 8 + 8 + length txs) rest)
      read_parts room =
          unfold read_block block_bytes block_header_bytes in
          simp append_assoc (
            rw (
              read_u64-put_u64 host size b.created_at off
                  (b.previous_block_hash
                    ++ (put_u64 host b.proof_of_work
                        ++ (put_u64 host (length b.transaction_list) ++ (txs ++ rest))))
                  v.created_at (omega arith),
              field-append size b.previous_block_hash
                  (put_u64 host b.proof_of_work
                    ++ (put_u64 host (length b.transaction_list) ++ (txs ++ rest)))
                  (off + 8) 32 v.previous_block_hash (omega arith),
              read_u64-put_u64 host size b.proof_of_work (off + 8 + 32)
                  (put_u64 host (length b.transaction_list) ++ (txs ++ rest)) v.proof_of_work
                  (omega arith),
              read_u64-put_u64 host size (length b.transaction_list) (off + 8 + 32 + 8)
                  (txs ++ rest) v.num_transactions (omega arith),
              granted (off + 8 + 32 + 8 + 8) Request.list_struct,
              read_transactions-transactions_bytes b.transaction_list (off + 8 + 32 + 8 + 8) rest
                  v.transaction_list (omega arith),
              granted (off + 8 + 32 + 8 + 8 + length txs) Request.block_struct,
              granted (off + 8 + 32 + 8 + 8 + length txs) Request.block_node,
            ))

  read_blocks-blocks_bytes :
      (bs : List Block) (off : ℕ) (rest : List ℕ)
      → All IsBlock bs
      → off + length (blocks_bytes host bs) ≤ size
      → read_blocks heap host size (length bs) (cursor off (blocks_bytes host bs ++ rest))
        ≡ ok (bs, cursor (off + length (blocks_bytes host bs)) rest)
  unfolding read_blocks blocks_bytes
  read_blocks-blocks_bytes [] off rest v fits = ap (λ (o : ℕ). ok ([], cursor o rest)) (omega arith)
  read_blocks-blocks_bytes (b ∷ bs) off rest (v, vs) fits =
      let one = length (block_bytes host b) in
      let sum = length-append (block_bytes host b) (blocks_bytes host bs) in
      rw
        (
          append_assoc (block_bytes host b) (blocks_bytes host bs) rest,
          read_block-block_bytes b off (blocks_bytes host bs ++ rest) v (omega (arith, sum)),
          read_blocks-blocks_bytes bs (off + one) rest vs (omega (arith, sum)),
        )
        (ap (λ (o : ℕ). ok (b ∷ bs, cursor o rest)) (omega (arith, sum)))

  pub read_blockchain-blockchain_bytes :
      (c : Blockchain) (rest : List ℕ)
      → IsBlockchain c
      → length (blockchain_bytes host c) ≤ size
      → read_blockchain heap host size (cursor 0 (blockchain_bytes host c ++ rest))
        ≡ ok (c, cursor (length (blockchain_bytes host c)) rest)
  read_blockchain-blockchain_bytes c rest v fits =
      let n = length-blockchain_bytes host c in rw n (read_parts (omega (arith, n)))
    where
      blocks : List ℕ
      blocks = blocks_bytes host c.block_list

      read_parts :
          16 + length blocks ≤ size
          → read_blockchain heap host size (cursor 0 (blockchain_bytes host c ++ rest))
            ≡ ok (c, cursor (16 + length blocks) rest)
      read_parts room =
          unfold read_blockchain blockchain_bytes in
          simp append_assoc (
            rw (
              read_u64-put_u64 host size c.num_leading_zero_bytes 0
                  (put_u64 host (length c.block_list) ++ (blocks ++ rest)) v.num_leading_zero_bytes
                  (omega arith),
              granted 8 Request.blockchain_struct,
              granted 8 Request.list_struct,
              read_u64-put_u64 host size (length c.block_list) 8 (blocks ++ rest) v.num_blocks
                  (omega arith),
              read_blocks-blocks_bytes c.block_list 16 rest v.block_list (omega arith),
            ))
