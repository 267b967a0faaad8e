-- ===== src/Networking/Serialize.antt =====
-- The serializers of src/networking.c. Each returns the struct that it has changed, where it changes
-- one, the bytes of the new buffer and their number.
use leocoin.Prelude.{
  ℕ, ◌+◌, ◌%◌, ◌^◌, Option, none, some, List, [], ◌∷◌, ◌++◌, ◌==◌, leb, if◌then◌else◌, replicate,
  split_at?,
}
use leocoin.Result.{
  Result, ok, err, fault, ◌>>=◌, ◌>>◌, guard, Pointer, Out, given, non_null, writable, Allocator,
  malloc, failure_invalid_command, failure_invalid_command_prefix,
}
use leocoin.Endian.Memory.{Host}
use leocoin.Buffer.{put_u64, put_net}
use leocoin.Networking.{
  CommandHeader, CommandRegisterPeer, CommandSendPeerList, CommandSendBlockchain, command_prefix,
  sizeof_command_header, command_register_peer, command_send_peer_list, command_send_blockchain,
}

-- The loop over the prefix: a copy that stops at the first byte which is not the expected one.
unfoldable pub copy_prefix : List ℕ → List ℕ → Result (List ℕ)
copy_prefix [] _ = ok []
copy_prefix (e ∷ es) [] = fault
copy_prefix (e ∷ es) (p ∷ ps) =
    let rest = copy_prefix es ps in
    if p == e then (do r ← rest; ok (p ∷ r)) else err failure_invalid_command_prefix

unfoldable pub command_header_serialize :
    Allocator → Host → Pointer CommandHeader → Out → Out → Result (List ℕ × ℕ)
unfolding copy_prefix
command_header_serialize grants host command_header buffer buffer_size = do
  h ← non_null command_header
  writable buffer
  writable buffer_size
  malloc grants sizeof_command_header
  prefix ← copy_prefix command_prefix h.prefix
  ok (prefix ++ (put_net host 4 h.command ++ put_u64 host h.command_len), sizeof_command_header)

-- The struct with `header.command_len` set.
abbrev pub with_len : CommandHeader → ℕ → CommandHeader
with_len h n = record h { command_len = n }

-- The part behind the header; `calloc` leaves the four last bytes 0.
unfoldable pub register_peer_buffer : Host → CommandRegisterPeer → List ℕ
register_peer_buffer host c =
    put_net host 2 c.sin6_family
    ++ (put_net host 2 c.sin6_port
        ++ (put_net host 4 c.sin6_flowinfo
            ++ (c.addr ++ (put_net host 4 c.sin6_scope_id ++ replicate 4 0))))

abbrev pub register_peer_size : ℕ
register_peer_size = 32

unfoldable pub command_register_peer_serialize :
    Allocator
    → Host
    → Pointer CommandRegisterPeer
    → Out
    → Out
    → Result (CommandRegisterPeer × List ℕ × ℕ)
unfolding command_header_serialize register_peer_buffer
command_register_peer_serialize grants host command buffer buffer_size = do
  c ← non_null command
  writable buffer
  writable buffer_size
  guard (c.header.command == command_register_peer) failure_invalid_command
  malloc grants register_peer_size
  let c' = record c { header = with_len c.header register_peer_size }
  (header_buffer, header_size) ← command_header_serialize grants host (some c'.header) given given
  let total_size = header_size + register_peer_size
  malloc grants total_size
  ok (c', header_buffer ++ register_peer_buffer host c, total_size)

copied : Option (List ℕ × List ℕ) → Result (List ℕ)
copied none = fault
copied (some (front, _)) = ok front

-- `memcpy` of `n` bytes behind `used` others into an object of `size` bytes: a fault where the
-- object is too small for them or the source has fewer.
unfoldable pub memcpy_behind : (size used n : ℕ) → List ℕ → Result (List ℕ)
unfolding copied
memcpy_behind size used n src = if leb (used + n) size then copied (split_at? n src) else fault

-- What the two functions below share: header, length and data, for the command `expected`. The sums
-- are of `uint64_t`.
unfoldable pub send_data_serialize :
    Allocator → Host → ℕ → CommandHeader → ℕ → List ℕ → Result (CommandHeader × List ℕ × ℕ)
unfolding command_header_serialize memcpy_behind
send_data_serialize grants host expected header data_len payload = do
  guard (header.command == expected) failure_invalid_command
  malloc grants 8
  let header' = with_len header ((8 + data_len) % 2 ^ 64)
  (header_buffer, header_size) ← command_header_serialize grants host (some header') given given
  let total_size = (header_size + 8 + data_len) % 2 ^ 64
  malloc grants total_size
  body ← memcpy_behind total_size (header_size + 8) data_len payload
  ok (header', header_buffer ++ (put_u64 host data_len ++ body), total_size)

unfoldable pub command_send_peer_list_serialize :
    Allocator
    → Host
    → Pointer CommandSendPeerList
    → Out
    → Out
    → Result (CommandSendPeerList × List ℕ × ℕ)
unfolding send_data_serialize
command_send_peer_list_serialize grants host command buffer buffer_size = do
  c ← non_null command
  writable buffer
  writable buffer_size
  (header, bytes, size) ←
      send_data_serialize grants host command_send_peer_list c.header c.peer_list_data_len
        c.peer_list_data
  ok (record c { header = header }, bytes, size)

unfoldable pub command_send_blockchain_serialize :
    Allocator
    → Host
    → Pointer CommandSendBlockchain
    → Out
    → Out
    → Result (CommandSendBlockchain × List ℕ × ℕ)
unfolding send_data_serialize
command_send_blockchain_serialize grants host command buffer buffer_size = do
  c ← non_null command
  writable buffer
  writable buffer_size
  (header, bytes, size) ←
      send_data_serialize grants host command_send_blockchain c.header c.blockchain_data_len
        c.blockchain_data
  ok (record c { header = header }, bytes, size)
