-- ===== src/Endian/Memory.antt =====
-- The bytes of an unsigned integer in memory, lowest or highest first as the host has it.
use mathlib.Core.List.{reverse-reverse, reverse-cons}
use leocoin.Prelude.{
  ℕ, zero, suc, ◌+◌, ◌*◌, ◌/◌, ◌%◌, ◌^◌, ◌<◌, ◌≡◌, refl, ap, ◌∙◌, List, [], ◌∷◌, ◌++◌, reverse,
  arith, length, length-append, All,
}
use native.Mathlib.Nat.{pow-suc}

pub data Host : Type 0 where
  little_endian : Host
  big_endian : Host

abbrev pub IsByte : ℕ → Type 0
IsByte b = b < 256

unfoldable pub le_bytes : ℕ → ℕ → List ℕ
le_bytes zero v = []
le_bytes (suc n) v = (v % 256) ∷ le_bytes n (v / 256)

unfoldable pub le_value : List ℕ → ℕ
le_value [] = 0
le_value (b ∷ bs) = b + 256 * le_value bs

unfoldable pub be_bytes : ℕ → ℕ → List ℕ
unfolding le_bytes
be_bytes n v = reverse (le_bytes n v)

unfoldable pub be_value : List ℕ → ℕ
unfolding le_value
be_value bs = le_value (reverse bs)

-- A word of `n` bytes as it stands in memory, and the word that stands in some bytes of memory.
unfoldable pub memory_of : Host → ℕ → ℕ → List ℕ
memory_of little_endian n v = le_bytes n v
memory_of big_endian n v = be_bytes n v

unfoldable pub uint_of : Host → List ℕ → ℕ
uint_of little_endian bs = le_value bs
uint_of big_endian bs = be_value bs

pub length-le_bytes : (n v : ℕ) → length (le_bytes n v) ≡ n
unfolding le_bytes
length-le_bytes zero v = refl
length-le_bytes (suc n) v = ap suc (length-le_bytes n (v / 256))

pub All-le_bytes : (n v : ℕ) → All IsByte (le_bytes n v)
unfolding le_bytes
All-le_bytes zero v = tt
All-le_bytes (suc n) v = (omega arith, All-le_bytes n (v / 256))

le_value-le_bytes : (n v : ℕ) → v < 256 ^ n → le_value (le_bytes n v) ≡ v
unfolding le_value le_bytes
le_value-le_bytes zero v h = omega arith
le_value-le_bytes (suc n) v h =
    omega (arith, le_value-le_bytes n (v / 256) (omega (arith, pow-suc 256 n)))

le_bytes-le_value :
    (bs : List ℕ) (n : ℕ) → length bs ≡ n → All IsByte bs → le_bytes n (le_value bs) ≡ bs
unfolding le_value le_bytes
le_bytes-le_value [] zero l h = refl
le_bytes-le_value [] (suc n) l h = absurd (omega arith)
le_bytes-le_value (b ∷ bs) zero l h = absurd (omega arith)
le_bytes-le_value (b ∷ bs) (suc n) l (hb, hbs) =
    let low : (b + 256 * le_value bs) % 256 ≡ b = omega arith in
    let high : (b + 256 * le_value bs) / 256 ≡ le_value bs = omega arith in
    rw (low, high, le_bytes-le_value bs n (omega arith) hbs)

length-reverse : (bs : List ℕ) → length (reverse bs) ≡ length bs
length-reverse [] = refl
length-reverse (b ∷ bs) =
    rw reverse-cons (omega (arith, length-append (reverse bs) (b ∷ []), length-reverse bs))

All-append : (xs ys : List ℕ) → All IsByte xs → All IsByte ys → All IsByte (xs ++ ys)
All-append [] ys hx hy = hy
All-append (x ∷ xs) ys (h, hx) hy = (h, All-append xs ys hx hy)

All-reverse : (bs : List ℕ) → All IsByte bs → All IsByte (reverse bs)
All-reverse [] h = tt
All-reverse (b ∷ bs) (h, hs) =
    rw reverse-cons (All-append (reverse bs) (b ∷ []) (All-reverse bs hs) (h, tt))

pub length-be_bytes : (n v : ℕ) → length (be_bytes n v) ≡ n
unfolding be_bytes
length-be_bytes n v = length-reverse (le_bytes n v) ∙ length-le_bytes n v

pub All-be_bytes : (n v : ℕ) → All IsByte (be_bytes n v)
unfolding be_bytes
All-be_bytes n v = All-reverse (le_bytes n v) (All-le_bytes n v)

pub be_value-be_bytes : (n v : ℕ) → v < 256 ^ n → be_value (be_bytes n v) ≡ v
unfolding be_value be_bytes
be_value-be_bytes n v h = rw reverse-reverse (le_value-le_bytes n v h)

be_bytes-be_value :
    (bs : List ℕ) (n : ℕ) → length bs ≡ n → All IsByte bs → be_bytes n (be_value bs) ≡ bs
unfolding be_value be_bytes
be_bytes-be_value bs n l h =
    ap reverse (le_bytes-le_value (reverse bs) n (length-reverse bs ∙ l) (All-reverse bs h))
    ∙ reverse-reverse bs

-- A word that was read from memory is written back as it stood there.
pub memory_of-uint_of :
    (host : Host) (bs : List ℕ) (n : ℕ)
    → length bs ≡ n
    → All IsByte bs
    → memory_of host n (uint_of host bs) ≡ bs
unfolding memory_of uint_of
memory_of-uint_of little_endian = le_bytes-le_value
memory_of-uint_of big_endian = be_bytes-be_value

-- A word is read from memory as it was written.
pub uint_of-memory_of :
    (host : Host) (n v : ℕ) → v < 256 ^ n → uint_of host (memory_of host n v) ≡ v
unfolding memory_of uint_of
uint_of-memory_of little_endian = le_value-le_bytes
uint_of-memory_of big_endian = be_value-be_bytes

pub length-memory_of : (host : Host) (n v : ℕ) → length (memory_of host n v) ≡ n
unfolding memory_of
length-memory_of little_endian = length-le_bytes
length-memory_of big_endian = length-be_bytes
