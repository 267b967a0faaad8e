-- ===== src/Networking.antt =====
-- include/networking.h: the commands that peers exchange, each behind a header.
pub mod Serialize
pub mod Deserialize
pub mod Roundtrip
pub mod RegisterPeer
pub mod DataBytes
pub mod SendData
pub mod Safety
pub mod Sockets
use leocoin.Prelude.{ℕ, ◌<◌, ◌≡◌, ◌^◌, List, [], ◌∷◌, length, All}
use leocoin.Endian.Memory.{IsByte}

-- `COMMAND_PREFIX`, `COMMAND_PREFIX_LEN` and the structs' sizes on an LP64 host.
abbrev pub command_prefix : List ℕ
command_prefix = b'L' ∷ b'E' ∷ b'O' ∷ 0 ∷ []

abbrev pub sizeof_command_header : ℕ
sizeof_command_header = 16

-- Four bytes after `sin6_scope_id` align the struct to its `uint64_t`.
abbrev pub sizeof_command_register_peer : ℕ
sizeof_command_register_peer = 48

abbrev pub sizeof_in6_addr : ℕ
sizeof_in6_addr = 16

-- `command_t`
abbrev pub command_ok : ℕ
command_ok = 0

abbrev pub command_error : ℕ
command_error = 1

abbrev pub command_register_peer : ℕ
command_register_peer = 2

abbrev pub command_send_peer_list : ℕ
command_send_peer_list = 3

abbrev pub command_send_blockchain : ℕ
command_send_blockchain = 4

-- `command_header_t`
pub record CommandHeader : Type 0 where
  pub prefix : List ℕ
  pub command : ℕ
  pub command_len : ℕ

-- `command_register_peer_t`
pub record CommandRegisterPeer : Type 0 where
  pub header : CommandHeader
  pub sin6_family : ℕ
  pub sin6_port : ℕ
  pub sin6_flowinfo : ℕ
  pub addr : List ℕ
  pub sin6_scope_id : ℕ

-- `command_send_peer_list_t`; the data is the memory from the pointer to the end of its object.
pub record CommandSendPeerList : Type 0 where
  pub header : CommandHeader
  pub peer_list_data_len : ℕ
  pub peer_list_data : List ℕ

-- `command_send_blockchain_t`
pub record CommandSendBlockchain : Type 0 where
  pub header : CommandHeader
  pub blockchain_data_len : ℕ
  pub blockchain_data : List ℕ

-- A header of this program's protocol whose fields fit their types.
pub record IsHeader (h : CommandHeader) : Type 0 where
  pub prefix : h.prefix ≡ command_prefix
  pub command : h.command < 2 ^ 32
  pub command_len : h.command_len < 2 ^ 64

pub record IsRegisterPeer (c : CommandRegisterPeer) : Type 0 where
  pub header : IsHeader c.header
  pub command : c.header.command ≡ command_register_peer
  pub sin6_family : c.sin6_family < 2 ^ 16
  pub sin6_port : c.sin6_port < 2 ^ 16
  pub sin6_flowinfo : c.sin6_flowinfo < 2 ^ 32
  pub addr : length c.addr ≡ sizeof_in6_addr
  pub sin6_scope_id : c.sin6_scope_id < 2 ^ 32
