-- ===== src/PeerDiscovery.antt =====
-- src/peer_discovery.c: peers, and the list of them that the bootstrap server sends.
pub mod Serialize
pub mod Deserialize
pub mod ListBytes
pub mod Roundtrip
pub mod Safety
pub mod Compare
use leocoin.Prelude.{ℕ, ◌<◌, ◌^◌, ◌≡◌, Bool, true, Option, none, some, List, ◌++◌, length, bytes_eq}
use leocoin.Result.{Pointer}
use leocoin.Endian.Memory.{Host, memory_of}
use leocoin.Networking.{sizeof_in6_addr}

-- `struct sockaddr_in6`
pub record SockaddrIn6 : Type 0 where
  pub sin6_family : ℕ
  pub sin6_port : ℕ
  pub sin6_flowinfo : ℕ
  pub sin6_addr : List ℕ
  pub sin6_scope_id : ℕ

-- `peer_info_t`; a `time_t` is its 64 bits.
pub record PeerInfo : Type 0 where
  pub listen_addr : SockaddrIn6
  pub last_connected : ℕ

-- The values that the types of the fields hold.
pub record IsPeerInfo (p : PeerInfo) : Type 0 where
  pub sin6_family : p.listen_addr.sin6_family < 2 ^ 16
  pub sin6_port : p.listen_addr.sin6_port < 2 ^ 16
  pub sin6_flowinfo : p.listen_addr.sin6_flowinfo < 2 ^ 32
  pub sin6_addr : length p.listen_addr.sin6_addr ≡ sizeof_in6_addr
  pub sin6_scope_id : p.listen_addr.sin6_scope_id < 2 ^ 32
  pub last_connected : p.last_connected < 2 ^ 64

-- The 28 bytes of a `struct sockaddr_in6` in memory.
unfoldable pub sockaddr_memory : Host → SockaddrIn6 → List ℕ
sockaddr_memory host a =
    memory_of host 2 a.sin6_family
    ++ (memory_of host 2 a.sin6_port
        ++ (memory_of host 4 a.sin6_flowinfo ++ (a.sin6_addr ++ memory_of host 4 a.sin6_scope_id)))

-- Whether `compare_peer_info_t` returns 0, as it also does for NULL.
unfoldable pub compare_peer_info_t : Host → Pointer PeerInfo → Pointer PeerInfo → Bool
unfolding sockaddr_memory
compare_peer_info_t host none peer2 = true
compare_peer_info_t host (some p1) none = true
compare_peer_info_t host (some p1) (some p2) =
    bytes_eq (sockaddr_memory host p1.listen_addr) (sockaddr_memory host p2.listen_addr)
