-- ===== src/PeerDiscovery/Roundtrip.antt =====
-- A list of peers that is serialized is read back.
use leocoin.Prelude.{ℕ, ◌+◌, ◌*◌, ◌≤◌, ◌<◌, ◌^◌, ◌≡◌, some, List, ◌++◌, length, All}
use leocoin.Result.{ok, Allocator, given}
use leocoin.Endian.Memory.{Host}
use leocoin.Blockchain.Codec.{GrantsUpTo}
use leocoin.PeerDiscovery.{PeerInfo, IsPeerInfo}
use leocoin.PeerDiscovery.Serialize.{peer_info_list_serialize}
use leocoin.PeerDiscovery.Deserialize.{Allocators, peer_info_list_deserialize}
use leocoin.PeerDiscovery.ListBytes.{
  GrantsAll, peer_list_bytes, length-peer_list_bytes, peer_info_list_serialize_lem,
  peer_info_list_deserialize_lem,
}

-- A list of peers that `peer_info_list_serialize` writes takes 8 bytes and 36 for each peer, and is
-- read back by `peer_info_list_deserialize` as it was, in its order, also with more behind it. The
-- values of the peers fit their types, the sizes fit 64 bits, and memory is granted.
pub peer_info_list_deserialize-serialize :
    (grants : Allocator) (heap : Allocators) (host : Host) (ps : List PeerInfo) (rest : List ℕ)
    (size : ℕ)
    → All IsPeerInfo ps
    → 8 + 36 * length ps < 2 ^ 64
    → GrantsUpTo (8 + 36 * length ps) grants
    → GrantsAll heap
    → 8 + 36 * length ps ≤ size
    → (bytes : List ℕ) × (peer_info_list_serialize grants host (some ps) given given
        ≡ ok (bytes, 8 + 36 * length ps))
      × (length bytes ≡ 8 + 36 * length ps)
      × (peer_info_list_deserialize heap host given (some (bytes ++ rest)) size ≡ ok ps)
peer_info_list_deserialize-serialize grants heap host ps rest size v fits granted all room = (
  peer_list_bytes host ps,
  peer_info_list_serialize_lem grants host ps fits granted,
  length-peer_list_bytes host ps v,
  peer_info_list_deserialize_lem heap host ps rest size v fits all room,
)
