-- ===== src/Networking/Deserialize.antt =====
-- The deserializers of src/networking.c.
use leocoin.Prelude.{ℕ, ◌+◌, ◌%◌, ◌^◌, List, [], ◌∷◌, ◌==◌, leb}
use leocoin.Result.{
  Result, guard, Pointer, Out, writable, Allocator, malloc, failure_invalid_command,
  failure_invalid_command_prefix, failure_buffer_too_small,
}
use leocoin.Endian.Memory.{Host}
use leocoin.Buffer.{
  Parser, pure, ◌>>=◌, ◌>>◌, lift, run, check_room, take, take_byte, field, read_u64, read_net,
}
use leocoin.Networking.{
  CommandHeader, CommandRegisterPeer, CommandSendPeerList, CommandSendBlockchain, command_prefix,
  sizeof_in6_addr, command_register_peer, command_send_peer_list, command_send_blockchain,
}

-- The loop that compares the prefix byte by byte with the expected one.
unfoldable pub read_prefix : List ℕ → Parser (List ℕ)
read_prefix [] = pure []
read_prefix (e ∷ es) = do
  b ← take_byte
  lift (guard (b == e) failure_invalid_command_prefix)
  bs ← read_prefix es
  pure (b ∷ bs)

unfoldable pub read_header : Host → ℕ → Parser CommandHeader
unfolding read_prefix
read_header host buffer_size = do
  check_room buffer_size 4
  prefix ← read_prefix command_prefix
  command ← read_net host buffer_size 4
  command_len ← read_u64 host buffer_size
  pure (record { prefix = prefix; command = command; command_len = command_len })

unfoldable pub command_header_deserialize : Host → Out → Pointer (List ℕ) → ℕ → Result CommandHeader
unfolding read_header
command_header_deserialize host command_header buffer buffer_size =
    run (do lift (writable command_header); read_header host buffer_size) buffer

-- The header, and a check of its command.
unfoldable pub read_command : Host → ℕ → ℕ → Parser CommandHeader
read_command host buffer_size expected = do
  header ← read_header host buffer_size
  lift (guard (header.command == expected) failure_invalid_command)
  pure header

unfoldable pub read_register_peer : Host → ℕ → Parser CommandRegisterPeer
unfolding read_command
read_register_peer host buffer_size = do
  header ← read_command host buffer_size command_register_peer
  sin6_family ← read_net host buffer_size 2
  sin6_port ← read_net host buffer_size 2
  sin6_flowinfo ← read_net host buffer_size 4
  addr ← field buffer_size sizeof_in6_addr
  sin6_scope_id ← read_net host buffer_size 4
  pure (record {
    header = header;
    sin6_family = sin6_family;
    sin6_port = sin6_port;
    sin6_flowinfo = sin6_flowinfo;
    addr = addr;
    sin6_scope_id = sin6_scope_id;
  })

unfoldable pub command_register_peer_deserialize :
    Host → Out → Pointer (List ℕ) → ℕ → Result CommandRegisterPeer
unfolding read_register_peer
command_register_peer_deserialize host command buffer buffer_size =
    run (do lift (writable command); read_register_peer host buffer_size) buffer

-- `total_read_size += len; if (total_read_size > buffer_size) ...`: the sum wraps at 64 bits.
unfoldable pub check_data : ℕ → ℕ → Parser (Unit {0})
check_data buffer_size len c =
    lift (guard (leb ((c.offset + len) % 2 ^ 64) buffer_size) failure_buffer_too_small) c

-- What the two functions below share: the length, its check, the allocation and the copy.
unfoldable pub read_data : Allocator → Host → ℕ → Parser (ℕ × List ℕ)
unfolding check_data
read_data grants host buffer_size = do
  len ← read_u64 host buffer_size
  check_data buffer_size len
  lift (malloc grants len)
  bytes ← take len
  pure (len, bytes)

unfoldable pub read_send_peer_list : Allocator → Host → ℕ → Parser CommandSendPeerList
unfolding read_command read_data
read_send_peer_list grants host buffer_size = do
  header ← read_command host buffer_size command_send_peer_list
  (len, bytes) ← read_data grants host buffer_size
  pure (record { header = header; peer_list_data_len = len; peer_list_data = bytes })

unfoldable pub command_send_peer_list_deserialize :
    Allocator → Host → Out → Pointer (List ℕ) → ℕ → Result CommandSendPeerList
unfolding read_send_peer_list
command_send_peer_list_deserialize grants host command buffer buffer_size =
    run (do lift (writable command); read_send_peer_list grants host buffer_size) buffer

unfoldable pub read_send_blockchain : Allocator → Host → ℕ → Parser CommandSendBlockchain
unfolding read_command read_data
read_send_blockchain grants host buffer_size = do
  header ← read_command host buffer_size command_send_blockchain
  (len, bytes) ← read_data grants host buffer_size
  pure (record { header = header; blockchain_data_len = len; blockchain_data = bytes })

unfoldable pub command_send_blockchain_deserialize :
    Allocator → Host → Out → Pointer (List ℕ) → ℕ → Result CommandSendBlockchain
unfolding read_send_blockchain
command_send_blockchain_deserialize grants host command buffer buffer_size =
    run (do lift (writable command); read_send_blockchain grants host buffer_size) buffer
