-- ===== src/Endian/Laws.antt =====
-- The conversions of src/endian.c do what their names say, on hosts of either byte order.
use Prim.Native.Nat.{bit_or}
use leocoin.Prelude.{ℕ, ◌+◌, ◌*◌, ◌^◌, ◌<◌, ◌≡◌, refl, ap, ◌∙◌, List, [], ◌∷◌, arith, length, All}
use native.Mathlib.Nat.{one-le-pow}
use leocoin.Prelude.Bits.{zero-bit_or, bit_or-add}
use leocoin.Endian.Memory.{
  Host, IsByte, memory_of, uint_of, be_bytes, be_value, le_bytes, le_value, memory_of-uint_of,
  length-be_bytes, All-be_bytes, be_value-be_bytes,
}
use leocoin.Endian.{htobe64, betoh64, or_bytes, hton, ntoh}

htobe64_bytes : (host : Host) (v : ℕ) → htobe64 host v ≡ uint_of host (be_bytes 8 v)
unfolding htobe64 be_bytes le_bytes
htobe64_bytes host v = ap (uint_of host) (ground arith)

-- Storing `htobe64(v)` writes the eight bytes of `v`, the highest first, whatever the host.
pub memory_of-htobe64 : (host : Host) (v : ℕ) → memory_of host 8 (htobe64 host v) ≡ be_bytes 8 v
memory_of-htobe64 host v =
    ap (memory_of host 8) (htobe64_bytes host v)
    ∙ memory_of-uint_of host (be_bytes 8 v) 8 (length-be_bytes 8 v) (All-be_bytes 8 v)

pub memory_of-hton : (host : Host) (n v : ℕ) → memory_of host n (hton host n v) ≡ be_bytes n v
unfolding hton
memory_of-hton host n v =
    memory_of-uint_of host (be_bytes n v) n (length-be_bytes n v) (All-be_bytes n v)

-- One `decoded |= (uint64_t)p << k` where `decoded` holds the higher bytes.
or_next :
    (k k' q acc p : ℕ)
    → 2 ^ k' ≡ 256 * 2 ^ k
    → acc ≡ q * 2 ^ k'
    → p < 256
    → bit_or acc (p * 2 ^ k) ≡ (q * 256 + p) * 2 ^ k
or_next k k' q acc p e a h = rw a (
    bit_or-add k' q (p * 2 ^ k) (rw e (grind (arith, one-le-pow k 2)))
    ∙ omega (arith, ap (λ (t : ℕ). q * t) e))

or_bytes-eq :
    (p0 p1 p2 p3 p4 p5 p6 p7 : ℕ)
    → All IsByte (p0 ∷ p1 ∷ p2 ∷ p3 ∷ p4 ∷ p5 ∷ p6 ∷ p7 ∷ [])
    → or_bytes (p0 ∷ p1 ∷ p2 ∷ p3 ∷ p4 ∷ p5 ∷ p6 ∷ p7 ∷ [])
      ≡ be_value (p0 ∷ p1 ∷ p2 ∷ p3 ∷ p4 ∷ p5 ∷ p6 ∷ p7 ∷ [])
unfolding or_bytes be_value le_value
or_bytes-eq p0 p1 p2 p3 p4 p5 p6 p7 (h0, (h1, (h2, (h3, (h4, (h5, (h6, (h7, _)))))))) =
    let e1 = or_next 48 56 p0 _ p1 refl (zero-bit_or (p0 * 2 ^ 56)) h1 in
    let e2 = or_next 40 48 (p0 * 256 + p1) _ p2 refl e1 h2 in
    let e3 = or_next 32 40 ((p0 * 256 + p1) * 256 + p2) _ p3 refl e2 h3 in
    let e4 = or_next 24 32 (((p0 * 256 + p1) * 256 + p2) * 256 + p3) _ p4 refl e3 h4 in
    let q4 = (((p0 * 256 + p1) * 256 + p2) * 256 + p3) * 256 + p4 in
    let e5 = or_next 16 24 q4 _ p5 refl e4 h5 in
    let e6 = or_next 8 16 (q4 * 256 + p5) _ p6 refl e5 h6 in
    let e7 = or_next 0 8 ((q4 * 256 + p5) * 256 + p6) _ p7 refl e6 h7 in e7 ∙ omega arith

eight_bytes : (bs : List ℕ) → length bs ≡ 8 → All IsByte bs → or_bytes bs ≡ be_value bs
eight_bytes (p0 ∷ p1 ∷ p2 ∷ p3 ∷ p4 ∷ p5 ∷ p6 ∷ p7 ∷ []) l h = or_bytes-eq p0 p1 p2 p3 p4 p5 p6 p7 h
eight_bytes (p0 ∷ p1 ∷ p2 ∷ p3 ∷ p4 ∷ p5 ∷ p6 ∷ p7 ∷ p8 ∷ ps) l h = absurd (omega arith)
eight_bytes _ l h = absurd (omega arith)

-- Loading eight bytes and converting by `betoh64` reads them as a number, the highest first.
pub betoh64-uint_of :
    (host : Host) (bs : List ℕ)
    → length bs ≡ 8
    → All IsByte bs
    → betoh64 host (uint_of host bs) ≡ be_value bs
unfolding betoh64
betoh64-uint_of host bs l h = ap or_bytes (memory_of-uint_of host bs 8 l h) ∙ eight_bytes bs l h

pub ntoh-uint_of :
    (host : Host) (bs : List ℕ) (n : ℕ)
    → length bs ≡ n
    → All IsByte bs
    → ntoh host n (uint_of host bs) ≡ be_value bs
unfolding ntoh
ntoh-uint_of host bs n l h = ap be_value (memory_of-uint_of host bs n l h)

-- On a host of either byte order, `betoh64` undoes `htobe64` on every 64-bit value, and the bytes
-- that `htobe64` leaves in memory are those of the value with the highest first.
pub betoh64-htobe64 :
    (host : Host) (v : ℕ)
    → v < 2 ^ 64
    → (betoh64 host (htobe64 host v) ≡ v) × (memory_of host 8 (htobe64 host v) ≡ be_bytes 8 v)
betoh64-htobe64 host v h = (
  ap (betoh64 host) (htobe64_bytes host v)
      ∙ betoh64-uint_of host (be_bytes 8 v) (length-be_bytes 8 v) (All-be_bytes 8 v)
      ∙ be_value-be_bytes 8 v h,
  memory_of-htobe64 host v,
)
