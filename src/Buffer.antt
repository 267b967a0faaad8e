-- ===== src/Buffer.antt =====
-- How the deserializers walk a buffer: `next_spot_in_buffer`, the checks of `total_read_size`
-- against `buffer_size`, and the reads and writes of numbers in network byte order. The functions
-- of networking.c, peer_discovery.c and blockchain.c repeat these lines for each field.
pub mod Laws
pub mod Safety
use leocoin.Prelude.{
  ℕ, zero, suc, ◌+◌, ◌≤◌, ◌≡◌, Bool, true, Option, none, some, List, [], ◌∷◌, ltb, leb, not, length,
  split_at?,
}
use leocoin.Result.{
  Result, ok, err, fault, ReturnCode, failure_buffer_too_small, Pointer, non_null, guard,
}
use leocoin.Endian.Memory.{Host, memory_of, uint_of}
use leocoin.Endian.{htobe64, betoh64, hton, ntoh}

-- `offset` is `next_spot_in_buffer - buffer`, and `rest` the memory from `next_spot_in_buffer` to
-- the end of the object that the buffer lies in.
pub record Cursor : Type 0 where
  pub offset : ℕ
  pub rest : List ℕ

abbrev pub cursor : ℕ → List ℕ → Cursor
cursor offset rest = record { offset = offset; rest = rest }

-- Code that reads on from a cursor.
abbrev pub Parser : Type 0 → Type 0
Parser A = Cursor → Result (A × Cursor)

abbrev pub pure : {A : Type 0} → A → Parser A
pure a c = ok (a, c)

abbrev pub then : {A B : Type 0} → Result (A × Cursor) → (A → Parser B) → Result (B × Cursor)
then (ok (a, c)) f = f a c
then (err e) f = err e
then fault f = fault

infixl 5 ◌>>=◌ ◌>>◌
abbrev pub ◌>>=◌ : {A B : Type 0} → Parser A → (A → Parser B) → Parser B
◌>>=◌ p f c = then (p c) f

abbrev pub ◌>>◌ : {B : Type 0} → Parser (Unit {0}) → Parser B → Parser B
p >> q = p >>= λ _. q

abbrev pub lift : {A : Type 0} → Result A → Parser A
lift (ok a) c = ok (a, c)
lift (err e) c = err e
lift fault c = fault

abbrev pub value_of : {A : Type 0} → Result (A × Cursor) → Result A
value_of (ok (a, c)) = ok a
value_of (err e) = err e
value_of fault = fault

-- A parser run over a buffer argument from its first byte.
abbrev pub run : {A : Type 0} → Parser A → Pointer (List ℕ) → Result A
run p none = err ReturnCode.failure_invalid_input
run p (some buffer) = value_of (p (cursor 0 buffer))

-- `total_read_size = next_spot_in_buffer + n - buffer; if (total_read_size > buffer_size) ...`
unfoldable pub check_room : ℕ → ℕ → Parser (Unit {0})
check_room buffer_size n c =
    lift (guard (leb (c.offset + n) buffer_size) failure_buffer_too_small) c

advance : ℕ → Cursor → Option (List ℕ × List ℕ) → Result (List ℕ × Cursor)
advance n c none = fault
advance n c (some (bytes, rest)) = ok (bytes, cursor (c.offset + n) rest)

-- `n` bytes at `next_spot_in_buffer`, which moves on by `n`: a fault where they are not all memory
-- of the buffer.
unfoldable pub take : ℕ → Parser (List ℕ)
unfolding advance
take n c = advance n c (split_at? n c.rest)

abbrev pub next_byte : ℕ → List ℕ → Result (ℕ × Cursor)
next_byte offset [] = fault
next_byte offset (b ∷ rest) = ok (b, cursor (offset + 1) rest)

-- `*next_spot_in_buffer`, and `next_spot_in_buffer++`.
unfoldable pub take_byte : Parser ℕ
take_byte c = next_byte c.offset c.rest

-- A field of `n` bytes: the check, then the read.
unfoldable pub field : ℕ → ℕ → Parser (List ℕ)
field buffer_size n = check_room buffer_size n >> take n

-- `betoh64(*(uint64_t *)next_spot_in_buffer)` after its check, and `ntohl`, `ntohs` with theirs.
unfoldable pub read_u64 : Host → ℕ → Parser ℕ
read_u64 host buffer_size = do bytes ← field buffer_size 8; pure (betoh64 host (uint_of host bytes))

unfoldable pub read_net : Host → ℕ → ℕ → Parser ℕ
read_net host buffer_size n = do
  bytes ← field buffer_size n
  pure (ntoh host n (uint_of host bytes))

-- `*(uint64_t *)next_spot_in_buffer = htobe64(v)`, and with `htonl` and `htons` for `n` bytes.
unfoldable pub put_u64 : Host → ℕ → List ℕ
put_u64 host v = memory_of host 8 (htobe64 host v)

unfoldable pub put_net : Host → ℕ → ℕ → List ℕ
put_net host n v = memory_of host n (hton host n v)
