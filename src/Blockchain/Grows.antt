-- ===== src/Blockchain/Grows.antt =====
-- The buffer of `blockchain_serialize` of src/blockchain.c never wraps around.
use leocoin.Prelude.{
  ℕ, ◌+◌, ◌%◌, ◌^◌, ◌<◌, ◌≤◌, ◌≡◌, true, false, some, List, [], ◌∷◌, ◌++◌, arith, leb, Bool-cases,
  inl, inr,
}
use leocoin.Result.{Result, ok, err, ◌>>=◌, given, Allocator, failure_could_not_malloc}
use leocoin.Endian.Memory.{Host}
use leocoin.Blockchain.{Transaction, Block, Blockchain}
use leocoin.Blockchain.Serialize.{
  transaction_bytes, block_header_bytes, grow, serialize_transactions, serialize_blocks,
  blockchain_serialize,
}

-- The C library refuses an object of more than `PTRDIFF_MAX` bytes.
abbrev pub IsBounded : Allocator → Type 0
IsBounded grants = (size : ℕ) → 2 ^ 63 ≤ size → grants size ≡ false

-- A result that is not a memory error, and, where there is a size, one below `PTRDIFF_MAX`.
pub data IsBuffer : Result (List ℕ × ℕ) → Type 0 where
  buffered : (bytes : List ℕ) (size : ℕ) → size < 2 ^ 63 → IsBuffer (ok (bytes, size))
  refused : IsBuffer (err failure_could_not_malloc)

granted-bounded :
    (grants : Allocator) → IsBounded grants → (size : ℕ) → grants size ≡ true → size < 2 ^ 63
granted-bounded grants bounded size granted = elim (Bool-cases (leb (2 ^ 63) size)) [
  | inl big ↦
      let large : 2 ^ 63 ≤ size = ground arith in
      let never = bounded size large in absurd (cc (granted, never))
  | inr less ↦ ground arith
]

bind-IsBuffer :
    (r : Result (List ℕ × ℕ)) (f : List ℕ × ℕ → Result (List ℕ × ℕ))
    → IsBuffer r
    → ((bytes : List ℕ) (size : ℕ) → size < 2 ^ 63 → IsBuffer (f (bytes, size)))
    → IsBuffer (r >>= f)
bind-IsBuffer _ f (buffered bytes size small) h = h bytes size small
bind-IsBuffer _ f refused h = refused

module _ (grants : Allocator) (host : Host) (bounded : IsBounded grants) where
  grow-bounded :
      (size n : ℕ)
      → size < 2 ^ 63
      → n ≤ 10000
      → (f : ℕ → Result (List ℕ × ℕ)) → ((size' : ℕ) → size' < 2 ^ 63 → IsBuffer (f size'))
      → IsBuffer (grow grants size n >>= f)
  unfolding grow
  grow-bounded size n small few f h =
      let same : (size + n) % 2 ^ 64 ≡ size + n = omega arith in
      let fits : leb (size + n) (size + n) ≡ true = ground arith in
      elim (Bool-cases (grants (size + n))) [
        | inl granted ↦
            rw (same, granted, fits)
              (h (size + n) (granted-bounded grants bounded (size + n) granted))
        | inr refuses ↦ rw (same, refuses) refused
      ]

  serialize_transactions-IsBuffer :
      (ts : List Transaction) (buffer : List ℕ) (size : ℕ)
      → size < 2 ^ 63
      → IsBuffer (serialize_transactions grants host ts buffer size)
  unfolding serialize_transactions
  serialize_transactions-IsBuffer [] buffer size small = buffered buffer size small
  serialize_transactions-IsBuffer (t ∷ ts) buffer size small =
      grow-bounded size 8728 small (omega arith) _ λ size' small'.
        serialize_transactions-IsBuffer ts (buffer ++ transaction_bytes host t) size' small'

  serialize_blocks-IsBuffer :
      (bs : List Block) (buffer : List ℕ) (size : ℕ)
      → size < 2 ^ 63
      → IsBuffer (serialize_blocks grants host bs buffer size)
  unfolding serialize_blocks
  serialize_blocks-IsBuffer [] buffer size small = buffered buffer size small
  serialize_blocks-IsBuffer (b ∷ bs) buffer size small =
      grow-bounded size 56 small (omega arith) _ λ size' small'.
        bind-IsBuffer _ _
          (serialize_transactions-IsBuffer b.transaction_list (buffer ++ block_header_bytes host b)
            size' small')
          λ bytes size'' small''. serialize_blocks-IsBuffer bs bytes size'' small''

  pub blockchain_serialize-IsBuffer :
      (c : Blockchain) → IsBuffer (blockchain_serialize grants host (some c) given given)
  unfolding blockchain_serialize
  blockchain_serialize-IsBuffer c = elim (Bool-cases (grants 16)) [
    | inl granted ↦ rw granted (serialize_blocks-IsBuffer c.block_list _ 16 (omega arith))
    | inr refuses ↦ rw refuses refused
  ]
