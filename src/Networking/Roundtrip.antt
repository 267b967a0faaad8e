-- ===== src/Networking/Roundtrip.antt =====
-- What a serializer writes, the deserializer of the other peer reads.
use leocoin.Prelude.{
  ℕ, ◌≤◌, ◌≡◌, sym, ap, true, ◌==◌, ==_iff, some, List, ◌++◌, append_assoc, arith, leb, length,
  length-append,
}
use leocoin.Result.{ok, Allocator, given}
use leocoin.Endian.Memory.{Host}
use leocoin.Buffer.{cursor, check_room, take_byte, put_net, put_u64}
use leocoin.Buffer.Laws.{read_u64-put_u64, read_net-put_net, length-put_u64, length-put_net}
use leocoin.Networking.{CommandHeader, IsHeader, command_prefix}
use leocoin.Networking.Serialize.{command_header_serialize}
use leocoin.Networking.Deserialize.{read_header, read_command, command_header_deserialize}

-- The sixteen bytes of a header.
unfoldable pub header_bytes : Host → CommandHeader → List ℕ
header_bytes host h = command_prefix ++ (put_net host 4 h.command ++ put_u64 host h.command_len)

pub length-header_bytes : (host : Host) (h : CommandHeader) → length (header_bytes host h) ≡ 16
unfolding header_bytes
length-header_bytes host h = omega (
  arith,
  length-append (put_net host 4 h.command) (put_u64 host h.command_len),
  length-put_net host 4 h.command,
  length-put_u64 host h.command_len,
)

pub command_header_serialize_lem :
    (grants : Allocator) (host : Host) (h : CommandHeader)
    → h.prefix ≡ command_prefix
    → grants 16 ≡ true
    → command_header_serialize grants host (some h) given given ≡ ok (header_bytes host h, 16)
unfolding command_header_serialize header_bytes
command_header_serialize_lem grants host h p g = rw (g, p)

module _ (host : Host) (size : ℕ) where
  pub read_header-header_bytes :
      (h : CommandHeader) (rest : List ℕ)
      → IsHeader h
      → 16 ≤ size
      → read_header host size (cursor 0 (header_bytes host h ++ rest)) ≡ ok (h, cursor 16 rest)
  unfolding read_header check_room take_byte header_bytes
  read_header-header_bytes h rest v fits =
      let room : leb 4 size ≡ true = ground arith in
      rw
        (
          room,
          append_assoc (put_net host 4 h.command) (put_u64 host h.command_len) rest,
          read_net-put_net host size 4 h.command 4 (put_u64 host h.command_len ++ rest) v.command
              (omega arith),
          read_u64-put_u64 host size h.command_len 8 rest v.command_len (omega arith),
        )
        (ap (λ (p : List ℕ). ok (record h { prefix = p }, cursor 16 rest)) (sym v.prefix))

  pub read_command-header_bytes :
      (h : CommandHeader) (expected : ℕ) (rest : List ℕ)
      → IsHeader h
      → h.command ≡ expected
      → 16 ≤ size
      → read_command host size expected (cursor 0 (header_bytes host h ++ rest))
        ≡ ok (h, cursor 16 rest)
  unfolding read_command
  read_command-header_bytes h expected rest v e fits =
      let same : (h.command == expected) ≡ true = (==_iff h.command expected).1 e in
      rw (read_header-header_bytes h rest v fits, same)

-- A header that is serialized is what `command_header_deserialize` reads, also with more behind it,
-- on hosts of either byte order, where the prefix is "LEO" and memory is granted.
pub command_header_deserialize-serialize :
    (grants : Allocator) (host : Host) (h : CommandHeader) (rest : List ℕ) (size : ℕ)
    → IsHeader h
    → grants 16 ≡ true
    → 16 ≤ size
    → (bytes : List ℕ) × (command_header_serialize grants host (some h) given given
        ≡ ok (bytes, 16))
      × (length bytes ≡ 16)
      × (command_header_deserialize host given (some (bytes ++ rest)) size ≡ ok h)
unfolding command_header_deserialize
command_header_deserialize-serialize grants host h rest size v g fits = (
  header_bytes host h,
  command_header_serialize_lem grants host h v.prefix g,
  length-header_bytes host h,
  rw (read_header-header_bytes host size h rest v fits),
)
