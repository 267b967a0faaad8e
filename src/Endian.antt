-- ===== src/Endian.antt =====
-- src/endian.c, and how a machine lays an unsigned integer out in memory.
pub mod Memory
pub mod Laws
use Prim.Native.Nat.{bit_or}
use leocoin.Prelude.{ℕ, ◌/◌, ◌%◌, ◌*◌, ◌^◌, List, [], ◌∷◌}
use Memory.{Host, memory_of, uint_of, be_bytes, be_value}

-- `(uint8_t)(data >> k)`
abbrev byte_at : ℕ → ℕ → ℕ
byte_at data' k = data' / 2 ^ k % 256

-- `encoded` is the word whose bytes in memory are `p[0]` to `p[7]`.
unfoldable pub htobe64 : Host → ℕ → ℕ
htobe64 host data' = uint_of host (
    byte_at data' 56
    ∷ byte_at data' 48
    ∷ byte_at data' 40
    ∷ byte_at data' 32
    ∷ byte_at data' 24
    ∷ byte_at data' 16
    ∷ byte_at data' 8
    ∷ byte_at data' 0
    ∷ [])

-- The eight `decoded |= (uint64_t)p[i] << k` on the bytes of `data` in memory.
or_bytes : List ℕ → ℕ
or_bytes (p0 ∷ p1 ∷ p2 ∷ p3 ∷ p4 ∷ p5 ∷ p6 ∷ p7 ∷ []) =
    let d0 = bit_or 0 (p0 * 2 ^ 56) in
    let d1 = bit_or d0 (p1 * 2 ^ 48) in
    let d2 = bit_or d1 (p2 * 2 ^ 40) in
    let d3 = bit_or d2 (p3 * 2 ^ 32) in
    let d4 = bit_or d3 (p4 * 2 ^ 24) in
    let d5 = bit_or d4 (p5 * 2 ^ 16) in let d6 = bit_or d5 (p6 * 2 ^ 8) in bit_or d6 (p7 * 2 ^ 0)
or_bytes _ = 0

unfoldable pub betoh64 : Host → ℕ → ℕ
unfolding or_bytes
betoh64 host data' = or_bytes (memory_of host 8 data')

-- `htons`, `htonl`, `ntohs` and `ntohl` of the C library, for a word of `n` bytes: POSIX has network
-- byte order as the order of the bytes in memory, first the highest.
unfoldable pub hton : Host → ℕ → ℕ → ℕ
hton host n v = uint_of host (be_bytes n v)

unfoldable pub ntoh : Host → ℕ → ℕ → ℕ
ntoh host n w = be_value (memory_of host n w)
