-- ===== src/Blockchain/Overread.antt =====
-- A chain that is cut inside its last signature makes `blockchain_deserialize` read past the buffer.
use mathlib.Core.List.{append_cancel_right}
use leocoin.Prelude.{
  ℕ, ◌+◌, ◌≤◌, ◌<◌, ◌^◌, ◌≡◌, refl, sym, ap, ◌∙◌, some, List, [], ◌∷◌, ◌++◌, append_assoc, arith,
  length, length-append, All,
}
use leocoin.Result.{ok, fault, Allocator, given}
use leocoin.Endian.Memory.{Host}
use leocoin.Buffer.{put_u64}
use leocoin.Buffer.Laws.{read_u64-put_u64}
use leocoin.Blockchain.{Transaction, Block, Blockchain, IsTransaction, IsBlock, IsBlockchain}
use leocoin.Blockchain.Serialize.{transaction_bytes, block_header_bytes, blockchain_serialize}
use leocoin.Blockchain.Deserialize.{Heap, Request, read_blockchain, blockchain_deserialize}
use leocoin.Blockchain.Format.{
  transactions_bytes, block_bytes, blocks_bytes, blockchain_bytes, length-transaction_bytes,
  length-block_bytes, length-blockchain_bytes,
}
use leocoin.Blockchain.Roundtrip.{Grants}
use leocoin.Blockchain.Codec.{GrantsUpTo, blockchain_serialize_lem}
use leocoin.Blockchain.Cut.{
  cut, read_blocks-cut, transactions_bytes-append, transactions_bytes-cut, blocks_bytes-snoc,
}

All-snoc :
    {A : Type 0} (P : A → Type 0) (xs : List A) (x : A) → All P (xs ++ x ∷ []) → All P xs × P x
All-snoc P [] x h = (tt, h.0)
All-snoc P (y ∷ ys) x h = let (a, b) = All-snoc P ys x h.1 in ((h.0, a), b)

-- Where the bytes that are kept end in the last signature, they are the format of the cut chain.
kept :
    (host : Host) (c : Blockchain) (bs : List Block) (b : Block) (ts : List Transaction)
    (t : Transaction) (front missing buffer : List ℕ)
    → c.block_list ≡ bs ++ b ∷ []
    → b.transaction_list ≡ ts ++ t ∷ []
    → t.sender_signature.bytes ≡ front ++ missing
    → blockchain_bytes host c ≡ buffer ++ missing
    → buffer
      ≡ put_u64 host c.num_leading_zero_bytes
        ++ (put_u64 host (length c.block_list)
            ++ (blocks_bytes host bs
                ++ (block_header_bytes host b ++ transactions_bytes host (ts ++ cut t front ∷ []))))
unfolding blockchain_bytes block_bytes
kept host c bs b ts t front missing buffer eb et es e = append_cancel_right buffer _ missing (
    sym e
    ∙ ap
        (λ (l : List ℕ).
          (put_u64 host c.num_leading_zero_bytes ++ put_u64 host (length c.block_list)) ++ l)
        (ap (blocks_bytes host) eb
          ∙ blocks_bytes-snoc host bs b
          ∙ ap (λ (l : List ℕ). blocks_bytes host bs ++ (block_header_bytes host b ++ l))
              (ap (transactions_bytes host) et ∙ transactions_bytes-cut host ts t front missing es))
    ∙ simp append_assoc)

-- The room that the checks see, in a chain that ends in `t`.
kept_room :
    (host : Host) (c : Blockchain) (bs : List Block) (b : Block) (ts : List Transaction)
    (t : Transaction) (front missing buffer : List ℕ)
    → c.block_list ≡ bs ++ b ∷ []
    → b.transaction_list ≡ ts ++ t ∷ []
    → IsBlock b
    → IsTransaction t
    → t.sender_signature.bytes ≡ front ++ missing
    → t.sender_signature.len ≤ length front
    → blockchain_bytes host c ≡ buffer ++ missing
    → 16
        + length (blocks_bytes host bs)
        + 56
        + length (transactions_bytes host ts)
        + 8216
        + t.sender_signature.len
      ≤ length buffer
kept_room host c bs b ts t front missing buffer eb et vb vt es len e =
    let txs = transactions_bytes host in
    let last : txs (t ∷ []) ≡ transaction_bytes host t ++ [] = unfold transactions_bytes in refl in
    omega (
      arith,
      ap length e,
      length-append buffer missing,
      length-blockchain_bytes host c,
      ap (λ (l : List Block). length (blocks_bytes host l)) eb,
      ap length (blocks_bytes-snoc host bs b),
      length-append (blocks_bytes host bs) (block_bytes host b),
      length-block_bytes host b vb,
      ap (λ (l : List Transaction). length (txs l)) et,
      ap length (transactions_bytes-append host ts (t ∷ [])),
      length-append (txs ts) (txs (t ∷ [])),
      ap length last,
      length-append (transaction_bytes host t) [],
      length-transaction_bytes host t vt,
      vt.signature_bytes,
      ap length es,
      length-append front missing,
    )

-- A serialized chain from which the last bytes are missing, all of them from the array of the last
-- signature behind its `len` bytes, passes every check of `blockchain_deserialize`, which then
-- reads past the end of the buffer. The chain is well formed, ends in a block with transactions and
-- is smaller than 2^64 bytes, and the requests for memory are granted.
pub blockchain_deserialize_overread :
    (grants : Allocator) (heap : Heap) (host : Host) (c : Blockchain) (bs : List Block) (b : Block)
    (ts : List Transaction) (t : Transaction) (front missing buffer : List ℕ) (n : ℕ)
    → IsBlockchain c
    → length (blockchain_bytes host c) < 2 ^ 64
    → GrantsUpTo (length (blockchain_bytes host c)) grants
    → Grants heap
    → c.block_list ≡ bs ++ b ∷ []
    → b.transaction_list ≡ ts ++ t ∷ []
    → t.sender_signature.bytes ≡ front ++ missing
    → t.sender_signature.len ≤ length front
    → 0 < length missing
    → blockchain_serialize grants host (some c) given given ≡ ok (buffer ++ missing, n)
    → blockchain_deserialize heap host given (some buffer) (length buffer) ≡ fault
blockchain_deserialize_overread grants heap host c bs b ts t front missing buffer n v fits granted
      all eb et es len lost written =
    let format : blockchain_bytes host c ≡ buffer ++ missing =
      cc (blockchain_serialize_lem grants host c v fits granted, written) in
    let (vbs, vb) = All-snoc IsBlock bs b (rw eb at v.block_list) in
    let (vts, vt) = All-snoc IsTransaction ts t (rw et at vb.transaction_list) in
    let room = kept_room host c bs b ts t front missing buffer eb et vb vt es len format in
    let short : length front < 512 =
      omega (arith, ap length es, length-append front missing, vt.signature_bytes) in
    let txs = transactions_bytes host (ts ++ cut t front ∷ []) in
    let blocks = blocks_bytes host bs ++ (block_header_bytes host b ++ txs) in
    ap (λ (l : List ℕ). blockchain_deserialize heap host given (some l) (length buffer))
      (kept host c bs b ts t front missing buffer eb et es format)
    ∙ unfold blockchain_deserialize read_blockchain in
      rw (
        read_u64-put_u64 host (length buffer) c.num_leading_zero_bytes 0
            (put_u64 host (length c.block_list) ++ blocks) v.num_leading_zero_bytes (omega arith),
        all 8 Request.blockchain_struct,
        all 8 Request.list_struct,
        read_u64-put_u64 host (length buffer) (length c.block_list) 8 blocks v.num_blocks
            (omega arith),
        ap length eb,
        read_blocks-cut heap host (length buffer) all bs b ts t front 16 vbs et vb vts vt short
            room,
      )
