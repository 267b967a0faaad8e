-- ===== src/Buffer/Laws.antt =====
-- Reading back what was written, field by field.
use leocoin.Prelude.{
  ℕ, ◌+◌, ◌≤◌, ◌<◌, ◌^◌, ◌≡◌, sym, ap, ◌∙◌, List, ◌++◌, arith, leb, length, split_at?-append, true,
}
use leocoin.Result.{ok}
use leocoin.Endian.Memory.{Host, be_bytes, length-be_bytes, All-be_bytes, be_value-be_bytes}
use leocoin.Endian.Laws.{memory_of-htobe64, memory_of-hton, betoh64-uint_of, ntoh-uint_of}
use leocoin.Buffer.{cursor, check_room, take, field, advance, read_u64, read_net, put_u64, put_net}

pub put_u64-be_bytes : (host : Host) (v : ℕ) → put_u64 host v ≡ be_bytes 8 v
unfolding put_u64
put_u64-be_bytes = memory_of-htobe64

pub put_net-be_bytes : (host : Host) (n v : ℕ) → put_net host n v ≡ be_bytes n v
unfolding put_net
put_net-be_bytes = memory_of-hton

pub put_u64_host : (a b : Host) (v : ℕ) → put_u64 a v ≡ put_u64 b v
put_u64_host a b v = put_u64-be_bytes a v ∙ sym (put_u64-be_bytes b v)

pub length-put_u64 : (host : Host) (v : ℕ) → length (put_u64 host v) ≡ 8
length-put_u64 host v = ap length (put_u64-be_bytes host v) ∙ length-be_bytes 8 v

pub length-put_net : (host : Host) (n v : ℕ) → length (put_net host n v) ≡ n
length-put_net host n v = ap length (put_net-be_bytes host n v) ∙ length-be_bytes n v

pub take-append :
    (bs rest : List ℕ) (off n : ℕ)
    → length bs ≡ n
    → take n (cursor off (bs ++ rest)) ≡ ok (bs, cursor (off + n) rest)
unfolding take
take-append bs rest off n l =
    ap (advance n (cursor off (bs ++ rest))) (split_at?-append bs rest n l)

pub field-append :
    (size : ℕ) (bs rest : List ℕ) (off n : ℕ)
    → length bs ≡ n
    → off + n ≤ size
    → field size n (cursor off (bs ++ rest)) ≡ ok (bs, cursor (off + n) rest)
unfolding field check_room
field-append size bs rest off n l h =
    let room : leb (off + n) size ≡ true = ground arith in rw room (take-append bs rest off n l)

module _ (host : Host) (size : ℕ) where
  pub read_u64-put_u64 :
      (v off : ℕ) (rest : List ℕ)
      → v < 2 ^ 64
      → off + 8 ≤ size
      → read_u64 host size (cursor off (put_u64 host v ++ rest)) ≡ ok (v, cursor (off + 8) rest)
  unfolding read_u64
  read_u64-put_u64 v off rest h fits =
      rw
        (
          put_u64-be_bytes host v,
          field-append size (be_bytes 8 v) rest off 8 (length-be_bytes 8 v) fits,
        )
        (ap (λ (x : ℕ). ok (x, cursor (off + 8) rest))
          (betoh64-uint_of host (be_bytes 8 v) (length-be_bytes 8 v) (All-be_bytes 8 v)
            ∙ be_value-be_bytes 8 v h))

  pub read_net-put_net :
      (n v off : ℕ) (rest : List ℕ)
      → v < 256 ^ n
      → off + n ≤ size
      → read_net host size n (cursor off (put_net host n v ++ rest)) ≡ ok (v, cursor (off + n) rest)
  unfolding read_net
  read_net-put_net n v off rest h fits =
      rw
        (
          put_net-be_bytes host n v,
          field-append size (be_bytes n v) rest off n (length-be_bytes n v) fits,
        )
        (ap (λ (x : ℕ). ok (x, cursor (off + n) rest))
          (ntoh-uint_of host (be_bytes n v) n (length-be_bytes n v) (All-be_bytes n v)
            ∙ be_value-be_bytes n v h))
