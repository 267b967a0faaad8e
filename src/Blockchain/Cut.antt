-- ===== src/Blockchain/Cut.antt =====
-- What `blockchain_deserialize` does on a chain whose last signature is cut.
use leocoin.Prelude.{
  ℕ, ◌+◌, ◌≤◌, ◌<◌, ◌≡◌, refl, ap, true, List, [], ◌∷◌, ◌++◌, append_assoc, append-nil, arith, leb,
  length, length-append, All, split_at?-none,
}
use leocoin.Result.{fault}
use leocoin.Endian.Memory.{Host}
use leocoin.Buffer.{cursor, check_room, take, put_u64}
use leocoin.Buffer.Laws.{read_u64-put_u64, field-append}
use leocoin.Blockchain.{Transaction, Block, IsTransaction, IsBlock}
use leocoin.Blockchain.Serialize.{transaction_bytes, block_header_bytes}
use leocoin.Blockchain.Deserialize.{
  Heap, Request, read_transaction, read_transactions, read_block, read_blocks,
}
use leocoin.Blockchain.Format.{
  transactions_bytes, block_bytes, blocks_bytes, length-transaction_bytes,
}
use leocoin.Blockchain.Roundtrip.{
  Grants, read_transaction-transaction_bytes, read_block-block_bytes,
}

-- The transaction with the array of its signature cut after `front`.
abbrev pub cut : Transaction → List ℕ → Transaction
cut t front = record t { sender_signature = record t.sender_signature { bytes = front } }

module _ (heap : Heap) (host : Host) (size : ℕ) (granted : Grants heap) where
  read_transaction-cut :
      (t : Transaction) (front : List ℕ) (off : ℕ)
      → IsTransaction t
      → length front < 512
      → off + 8216 + t.sender_signature.len ≤ size
      → read_transaction heap host size (cursor off (transaction_bytes host (cut t front))) ≡ fault
  unfolding read_transaction transaction_bytes check_room take
  read_transaction-cut t front off v short fits =
      let sig = put_u64 host t.sender_signature.len ++ front in
      let amount = put_u64 host t.amount ++ sig in
      let len_fits : leb t.sender_signature.len 4096 ≡ true = ground (arith, v.signature_len) in
      let room : leb (off + 8 + 4096 + 4096 + 8 + 8 + t.sender_signature.len) size ≡ true =
        ground arith in
      rw (
        granted off Request.transaction_struct,
        read_u64-put_u64 host size t.created_at off
            (t.sender_public_key ++ (t.recipient_public_key ++ amount)) v.created_at (omega arith),
        field-append size t.sender_public_key (t.recipient_public_key ++ amount) (off + 8) 4096
            v.sender_public_key (omega arith),
        field-append size t.recipient_public_key amount (off + 8 + 4096) 4096 v.recipient_public_key
            (omega arith),
        read_u64-put_u64 host size t.amount (off + 8 + 4096 + 4096) sig v.amount (omega arith),
        read_u64-put_u64 host size t.sender_signature.len (off + 8 + 4096 + 4096 + 8) front
            (omega (arith, v.signature_len)) (omega arith),
        len_fits,
        room,
        split_at?-none 512 front short,
      )

  read_transactions-cut :
      (ts : List Transaction) (t : Transaction) (front : List ℕ) (off : ℕ)
      → All IsTransaction ts
      → IsTransaction t
      → length front < 512
      → off + length (transactions_bytes host ts) + 8216 + t.sender_signature.len ≤ size
      → read_transactions heap host size
          (length (ts ++ t ∷ []))
          (cursor off (transactions_bytes host (ts ++ cut t front ∷ [])))
        ≡ fault
  unfolding read_transactions transactions_bytes
  read_transactions-cut [] t front off vs v short fits = rw (
    append-nil (transaction_bytes host (cut t front)),
    read_transaction-cut t front off v short (omega arith),
  )
  read_transactions-cut (x ∷ xs) t front off (vx, vxs) v short fits =
      let one = length-transaction_bytes host x vx in
      let sum = length-append (transaction_bytes host x) (transactions_bytes host xs) in
      rw (
        read_transaction-transaction_bytes heap host size granted x off
            (transactions_bytes host (xs ++ cut t front ∷ [])) vx (omega (arith, one, sum)),
        read_transactions-cut xs t front (off + 8728) vxs v short (omega (arith, one, sum)),
      )

  read_block-cut :
      (b : Block) (ts : List Transaction) (t : Transaction) (front : List ℕ) (off : ℕ)
      → b.transaction_list ≡ ts ++ t ∷ []
      → IsBlock b
      → All IsTransaction ts
      → IsTransaction t
      → length front < 512
      → off + 56 + length (transactions_bytes host ts) + 8216 + t.sender_signature.len ≤ size
      → read_block heap host size (
          cursor off
            (block_header_bytes host b ++ transactions_bytes host (ts ++ cut t front ∷ [])))
        ≡ fault
  unfolding read_block block_header_bytes
  read_block-cut b ts t front off e v vs vt short fits =
      let txs = transactions_bytes host (ts ++ cut t front ∷ []) in
      let count = put_u64 host (length b.transaction_list) ++ txs in
      let work = put_u64 host b.proof_of_work ++ count in
      simp append_assoc (
        rw (
          read_u64-put_u64 host size b.created_at off (b.previous_block_hash ++ work) v.created_at
              (omega arith),
          field-append size b.previous_block_hash work (off + 8) 32 v.previous_block_hash
              (omega arith),
          read_u64-put_u64 host size b.proof_of_work (off + 8 + 32) count v.proof_of_work
              (omega arith),
          read_u64-put_u64 host size (length b.transaction_list) (off + 8 + 32 + 8) txs
              v.num_transactions (omega arith),
          granted (off + 8 + 32 + 8 + 8) Request.list_struct,
          ap length e,
          read_transactions-cut ts t front (off + 8 + 32 + 8 + 8) vs vt short (omega arith),
        ))

  pub read_blocks-cut :
      (bs : List Block) (b : Block) (ts : List Transaction) (t : Transaction) (front : List ℕ)
      (off : ℕ)
      → All IsBlock bs
      → b.transaction_list ≡ ts ++ t ∷ []
      → IsBlock b
      → All IsTransaction ts
      → IsTransaction t
      → length front < 512
      → off
          + length (blocks_bytes host bs)
          + 56
          + length (transactions_bytes host ts)
          + 8216
          + t.sender_signature.len
        ≤ size
      → read_blocks heap host size (length (bs ++ b ∷ [])) (
          cursor off (
            blocks_bytes host bs
            ++ (block_header_bytes host b ++ transactions_bytes host (ts ++ cut t front ∷ []))))
        ≡ fault
  unfolding read_blocks blocks_bytes
  read_blocks-cut [] b ts t front off us e v vs vt short fits =
      rw (read_block-cut b ts t front off e v vs vt short (omega arith))
  read_blocks-cut (x ∷ xs) b ts t front off (vx, vxs) e v vs vt short fits =
      let last = block_header_bytes host b ++ transactions_bytes host (ts ++ cut t front ∷ []) in
      let sum = length-append (block_bytes host x) (blocks_bytes host xs) in
      rw (
        append_assoc (block_bytes host x) (blocks_bytes host xs) last,
        read_block-block_bytes heap host size granted x off (blocks_bytes host xs ++ last) vx
            (omega (arith, sum)),
        read_blocks-cut xs b ts t front (off + length (block_bytes host x)) vxs e v vs vt short
            (omega (arith, sum)),
      )

pub transactions_bytes-cut :
    (host : Host) (ts : List Transaction) (t : Transaction) (front missing : List ℕ)
    → t.sender_signature.bytes ≡ front ++ missing
    → transactions_bytes host (ts ++ t ∷ [])
      ≡ transactions_bytes host (ts ++ cut t front ∷ []) ++ missing
unfolding transactions_bytes transaction_bytes
transactions_bytes-cut host [] t front missing e = rw e (simp (append_assoc, append-nil))
transactions_bytes-cut host (x ∷ xs) t front missing e =
    rw (transactions_bytes-cut host xs t front missing e) (simp append_assoc)

pub transactions_bytes-append :
    (host : Host) (ts us : List Transaction)
    → transactions_bytes host (ts ++ us) ≡ transactions_bytes host ts ++ transactions_bytes host us
unfolding transactions_bytes
transactions_bytes-append host [] us = refl
transactions_bytes-append host (t ∷ ts) us =
    rw (transactions_bytes-append host ts us) (simp append_assoc)

pub blocks_bytes-snoc :
    (host : Host) (bs : List Block) (b : Block)
    → blocks_bytes host (bs ++ b ∷ []) ≡ blocks_bytes host bs ++ block_bytes host b
unfolding blocks_bytes
blocks_bytes-snoc host [] b = append-nil (block_bytes host b)
blocks_bytes-snoc host (x ∷ xs) b = rw (blocks_bytes-snoc host xs b) (simp append_assoc)
