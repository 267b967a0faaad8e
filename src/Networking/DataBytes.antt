-- ===== src/Networking/DataBytes.antt =====
-- The bytes of a command that carries a peer list or a blockchain, and what is read back from them.
use leocoin.Prelude.{
  ℕ, ◌+◌, ◌%◌, ◌≤◌, ◌<◌, ◌^◌, ◌≡◌, ◌∙◌, refl, true, some, List, [], ◌++◌, append_assoc, append-nil,
  arith, length, length-append, leb, ◌==◌, ==_iff, split_at?, split_at?-append,
}
use leocoin.Result.{ok, Allocator, given}
use leocoin.Endian.Memory.{Host}
use leocoin.Buffer.{cursor, put_u64}
use leocoin.Buffer.Laws.{read_u64-put_u64, take-append, length-put_u64}
use leocoin.Networking.{CommandHeader, IsHeader, command_send_peer_list, command_send_blockchain}
use leocoin.Networking.Serialize.{
  with_len, send_data_serialize, memcpy_behind, command_send_peer_list_serialize,
  command_send_blockchain_serialize,
}
use leocoin.Networking.Deserialize.{
  check_data, read_data, read_send_peer_list, read_send_blockchain,
  command_send_peer_list_deserialize, command_send_blockchain_deserialize,
}
use leocoin.Networking.Roundtrip.{
  header_bytes, length-header_bytes, command_header_serialize_lem, read_command-header_bytes,
}

-- The data of a command, with the memory that its serializer and deserializer ask for.
pub record IsSendable (grants : Allocator) (expected : ℕ) (h : CommandHeader) (body : List ℕ)
    : Type 0 where
  pub header : IsHeader h
  pub command : h.command ≡ expected
  pub fits : 24 + length body < 2 ^ 64
  pub grants_length : grants 8 ≡ true
  pub grants_header : grants 16 ≡ true
  pub grants_all : grants (24 + length body) ≡ true
  pub grants_data : grants (length body) ≡ true

-- All memory is granted.
abbrev pub GrantsEvery : Allocator → Type 0
GrantsEvery grants = (size : ℕ) → grants size ≡ true

pub granted-IsSendable :
    (grants : Allocator) (h : CommandHeader) (body : List ℕ)
    → GrantsEvery grants
    → IsHeader h
    → 24 + length body < 2 ^ 64
    → IsSendable grants h.command h body
granted-IsSendable grants h body granted v fits = record {
  header = v;
  command = refl;
  fits = fits;
  grants_length = granted 8;
  grants_header = granted 16;
  grants_all = granted (24 + length body);
  grants_data = granted (length body);
}

-- What is on the wire: the header with the length of the rest, the length of the data, the data.
unfoldable pub data_bytes : Host → CommandHeader → List ℕ → List ℕ
data_bytes host h body =
    header_bytes host (with_len h (8 + length body)) ++ (put_u64 host (length body) ++ body)

pub length-data_bytes :
    (host : Host) (h : CommandHeader) (body : List ℕ)
    → length (data_bytes host h body) ≡ 24 + length body
unfolding data_bytes
length-data_bytes host h body =
    let h' = with_len h (8 + length body) in
    omega (
      arith,
      length-append (header_bytes host h') (put_u64 host (length body) ++ body),
      length-append (put_u64 host (length body)) body,
      length-header_bytes host h',
      length-put_u64 host (length body),
    )

module _ {grants : Allocator} {expected : ℕ} (host : Host) (h : CommandHeader) (body : List ℕ)
    (v : IsSendable grants expected h body) where
  abbrev pub sent_header : CommandHeader
  sent_header = with_len h (8 + length body)

  pub sent_header-IsHeader : IsHeader sent_header
  sent_header-IsHeader = record {
    prefix = v.header.prefix;
    command = v.header.command;
    command_len = omega (arith, v.fits);
  }

  pub send_data_serialize_lem :
      send_data_serialize grants host expected h (length body) body
      ≡ ok (sent_header, data_bytes host h body, 24 + length body)
  unfolding send_data_serialize data_bytes memcpy_behind
  send_data_serialize_lem =
      let same : (h.command == expected) ≡ true = (==_iff _ _).1 v.command in
      let len : (8 + length body) % 2 ^ 64 ≡ 8 + length body = omega (arith, v.fits) in
      let total : (16 + 8 + length body) % 2 ^ 64 ≡ 24 + length body = omega (arith, v.fits) in
      let room : leb (24 + length body) (24 + length body) ≡ true = ground arith in
      let whole : split_at? (length body) body ≡ some (body, []) =
        rw (append-nil) at (split_at?-append body [] (length body) refl) in
      let head = command_header_serialize_lem grants host sent_header v.header.prefix in
      rw (same, v.grants_length, len, head v.grants_header, total, v.grants_all, room, whole)

  pub read_data-data_bytes :
      (size : ℕ) (rest : List ℕ)
      → 24 + length body ≤ size
      → read_data grants host size (cursor 16 (put_u64 host (length body) ++ (body ++ rest)))
        ≡ ok ((length body, body), cursor (24 + length body) rest)
  unfolding read_data check_data
  read_data-data_bytes size rest room =
      let sum : (24 + length body) % 2 ^ 64 ≡ 24 + length body = omega (arith, v.fits) in
      let enough : leb (24 + length body) size ≡ true = ground arith in
      rw (
        read_u64-put_u64 host size (length body) 16 (body ++ rest) (omega (arith, v.fits))
            (omega arith),
        sum,
        enough,
        v.grants_data,
        take-append body rest 24 (length body) refl,
      )

  pub data_bytes-rest :
      (rest : List ℕ)
      → data_bytes host h body ++ rest
        ≡ header_bytes host sent_header ++ (put_u64 host (length body) ++ (body ++ rest))
  unfolding data_bytes
  data_bytes-rest rest = simp append_assoc

  -- What the two commands become on the wire, and how they are read back.
  pub command_send_blockchain_serialize_lem :
      expected ≡ command_send_blockchain
      → command_send_blockchain_serialize grants host
          (some (record { header = h; blockchain_data_len = length body; blockchain_data = body }))
          given
          given
        ≡ ok (
          record {
            header = sent_header;
            blockchain_data_len = length body;
            blockchain_data = body;
          },
          data_bytes host h body,
          24 + length body,
        )
  unfolding command_send_blockchain_serialize
  command_send_blockchain_serialize_lem e = rw (rw e at send_data_serialize_lem)

  pub command_send_blockchain_deserialize_lem :
      (rest : List ℕ) (size : ℕ)
      → expected ≡ command_send_blockchain
      → 24 + length body ≤ size
      → command_send_blockchain_deserialize grants host given
          (some (data_bytes host h body ++ rest))
          size
        ≡ ok (record {
          header = sent_header;
          blockchain_data_len = length body;
          blockchain_data = body;
        })
  unfolding command_send_blockchain_deserialize read_send_blockchain
  command_send_blockchain_deserialize_lem rest size e room = rw (
    data_bytes-rest rest,
    read_command-header_bytes host size sent_header command_send_blockchain
        (put_u64 host (length body) ++ (body ++ rest)) sent_header-IsHeader (v.command ∙ e)
        (omega arith),
    read_data-data_bytes size rest room,
  )

  pub command_send_peer_list_serialize_lem :
      expected ≡ command_send_peer_list
      → command_send_peer_list_serialize grants host
          (some (record { header = h; peer_list_data_len = length body; peer_list_data = body }))
          given
          given
        ≡ ok (
          record { header = sent_header; peer_list_data_len = length body; peer_list_data = body },
          data_bytes host h body,
          24 + length body,
        )
  unfolding command_send_peer_list_serialize
  command_send_peer_list_serialize_lem e = rw (rw e at send_data_serialize_lem)

  pub command_send_peer_list_deserialize_lem :
      (rest : List ℕ) (size : ℕ)
      → expected ≡ command_send_peer_list
      → 24 + length body ≤ size
      → command_send_peer_list_deserialize grants host given
          (some (data_bytes host h body ++ rest))
          size
        ≡ ok (record {
          header = sent_header;
          peer_list_data_len = length body;
          peer_list_data = body;
        })
  unfolding command_send_peer_list_deserialize read_send_peer_list
  command_send_peer_list_deserialize_lem rest size e room = rw (
    data_bytes-rest rest,
    read_command-header_bytes host size sent_header command_send_peer_list
        (put_u64 host (length body) ++ (body ++ rest)) sent_header-IsHeader (v.command ∙ e)
        (omega arith),
    read_data-data_bytes size rest room,
  )
