-- ===== src/Networking/RegisterPeer.antt =====
-- A registration as it is sent: `command_register_peer_serialize` and its counterpart.
use leocoin.Prelude.{
  ℕ, ◌≤◌, ◌≡◌, true, some, List, ◌++◌, append_assoc, arith, length, length-append, ◌==◌, ==_iff,
  replicate,
}
use leocoin.Result.{ok, Allocator, given}
use leocoin.Endian.Memory.{Host}
use leocoin.Buffer.{cursor, put_net}
use leocoin.Buffer.Laws.{read_net-put_net, field-append, length-put_net}
use leocoin.Networking.{CommandRegisterPeer, IsHeader, IsRegisterPeer, command_register_peer}
use leocoin.Networking.Serialize.{
  with_len, register_peer_buffer, register_peer_size, command_register_peer_serialize,
}
use leocoin.Networking.Deserialize.{read_register_peer, command_register_peer_deserialize}
use leocoin.Networking.Roundtrip.{
  header_bytes, length-header_bytes, command_header_serialize_lem, read_command-header_bytes,
}

-- The registration as the serializer leaves it, with the length of the command in its header.
abbrev pub sent : CommandRegisterPeer → CommandRegisterPeer
sent c = record c { header = with_len c.header register_peer_size }

pub sent-IsHeader : {c : CommandRegisterPeer} → IsRegisterPeer c → IsHeader (sent c).header
sent-IsHeader v = record {
  prefix = v.header.prefix;
  command = v.header.command;
  command_len = omega arith;
}

pub length-register_peer_buffer :
    (host : Host) (c : CommandRegisterPeer)
    → IsRegisterPeer c
    → length (register_peer_buffer host c) ≡ 32
unfolding register_peer_buffer
length-register_peer_buffer host c v =
    let scope = put_net host 4 c.sin6_scope_id ++ replicate {A = ℕ} 4 0 in
    omega (
      arith,
      length-append (put_net host 2 c.sin6_family)
          (put_net host 2 c.sin6_port ++ (put_net host 4 c.sin6_flowinfo ++ (c.addr ++ scope))),
      length-append (put_net host 2 c.sin6_port)
          (put_net host 4 c.sin6_flowinfo ++ (c.addr ++ scope)),
      length-append (put_net host 4 c.sin6_flowinfo) (c.addr ++ scope),
      length-append c.addr scope,
      length-append (put_net host 4 c.sin6_scope_id) (replicate {A = ℕ} 4 0),
      length-put_net host 2 c.sin6_family,
      length-put_net host 2 c.sin6_port,
      length-put_net host 4 c.sin6_flowinfo,
      length-put_net host 4 c.sin6_scope_id,
      v.addr,
    )

module _ (host : Host) (size : ℕ) where
  read_register_peer-sent :
      (c : CommandRegisterPeer) (rest : List ℕ)
      → IsRegisterPeer c
      → 48 ≤ size
      → read_register_peer host size
          (cursor 0 (header_bytes host (sent c).header ++ (register_peer_buffer host c ++ rest)))
        ≡ ok (sent c, cursor 44 (replicate 4 0 ++ rest))
  unfolding read_register_peer register_peer_buffer
  read_register_peer-sent c rest v fits =
      let pad = replicate {A = ℕ} 4 0 ++ rest in
      let scope = put_net host 4 c.sin6_scope_id ++ pad in
      let head = read_command-header_bytes host size (sent c).header command_register_peer in
      rw (head (register_peer_buffer host c ++ rest) (sent-IsHeader v) v.command (omega arith)) (
        simp append_assoc (
          rw (
            read_net-put_net host size 2 c.sin6_family 16
                (put_net host 2 c.sin6_port
                  ++ (put_net host 4 c.sin6_flowinfo ++ (c.addr ++ scope)))
                v.sin6_family (omega arith),
            read_net-put_net host size 2 c.sin6_port 18
                (put_net host 4 c.sin6_flowinfo ++ (c.addr ++ scope)) v.sin6_port (omega arith),
            read_net-put_net host size 4 c.sin6_flowinfo 20 (c.addr ++ scope) v.sin6_flowinfo
                (omega arith),
            field-append size c.addr scope 24 16 v.addr (omega arith),
            read_net-put_net host size 4 c.sin6_scope_id 40 pad v.sin6_scope_id (omega arith),
          )))

pub command_register_peer_serialize_lem :
    (grants : Allocator) (host : Host) (c : CommandRegisterPeer)
    → IsRegisterPeer c
    → grants 16 ≡ true
    → grants 32 ≡ true
    → grants 48 ≡ true
    → command_register_peer_serialize grants host (some c) given given
      ≡ ok (sent c, header_bytes host (sent c).header ++ register_peer_buffer host c, 48)
unfolding command_register_peer_serialize
command_register_peer_serialize_lem grants host c v g16 g32 g48 =
    let same : (c.header.command == command_register_peer) ≡ true = (==_iff _ _).1 v.command in
    rw
      (same, g32, command_header_serialize_lem grants host (sent c).header v.header.prefix g16, g48)

pub command_register_peer_deserialize_lem :
    (host : Host) (c : CommandRegisterPeer) (rest : List ℕ) (size : ℕ)
    → IsRegisterPeer c
    → 48 ≤ size
    → command_register_peer_deserialize host given
        (some ((header_bytes host (sent c).header ++ register_peer_buffer host c) ++ rest))
        size
      ≡ ok (sent c)
unfolding command_register_peer_deserialize
command_register_peer_deserialize_lem host c rest size v fits = rw (
  append_assoc (header_bytes host (sent c).header) (register_peer_buffer host c) rest,
  read_register_peer-sent host size c rest v fits,
)

-- A registration that is serialized takes 48 bytes, its header holds the length 32 of what follows,
-- and `command_register_peer_deserialize` reads it back with that length, also with more behind it.
-- The registration is a well-formed one, and memory is granted.
pub command_register_peer_deserialize-serialize :
    (grants : Allocator) (host : Host) (c : CommandRegisterPeer) (rest : List ℕ) (size : ℕ)
    → IsRegisterPeer c
    → grants 16 ≡ true
    → grants 32 ≡ true
    → grants 48 ≡ true
    → 48 ≤ size
    → (bytes : List ℕ) × (command_register_peer_serialize grants host (some c) given given
        ≡ ok (sent c, bytes, 48))
      × (length bytes ≡ 48)
      × (command_register_peer_deserialize host given (some (bytes ++ rest)) size ≡ ok (sent c))
command_register_peer_deserialize-serialize grants host c rest size v g16 g32 g48 fits =
    let h = (sent c).header in
    let body = register_peer_buffer host c in
    (
      header_bytes host h ++ body,
      command_register_peer_serialize_lem grants host c v g16 g32 g48,
      omega (
        arith,
        length-append (header_bytes host h) body,
        length-header_bytes host h,
        length-register_peer_buffer host c v,
      ),
      command_register_peer_deserialize_lem host c rest size v fits,
    )
