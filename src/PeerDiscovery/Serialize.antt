-- ===== src/PeerDiscovery/Serialize.antt =====
-- `peer_info_list_serialize` of src/peer_discovery.c.
use leocoin.Prelude.{ℕ, List, [], ◌∷◌, ◌++◌, length}
use leocoin.Result.{Result, ok, ◌>>=◌, ◌>>◌, Pointer, Out, non_null, writable, Allocator, malloc}
use leocoin.Endian.Memory.{Host}
use leocoin.Buffer.{put_u64, put_net}
use leocoin.Blockchain.Serialize.{grow}
use leocoin.PeerDiscovery.{PeerInfo}

unfoldable pub peer_bytes : Host → PeerInfo → List ℕ
peer_bytes host p =
    put_net host 2 p.listen_addr.sin6_family
    ++ (put_net host 2 p.listen_addr.sin6_port
        ++ (put_net host 4 p.listen_addr.sin6_flowinfo
            ++ (p.listen_addr.sin6_addr
                ++ (put_net host 4 p.listen_addr.sin6_scope_id ++ put_u64 host p.last_connected))))

abbrev pub sizeof_serialized_peer : ℕ
sizeof_serialized_peer = 36

-- The loop over the peers. The buffer grows by what is written at its end.
unfoldable pub serialize_peers : Allocator → Host → List PeerInfo → List ℕ → ℕ → Result (List ℕ × ℕ)
unfolding grow peer_bytes
serialize_peers grants host [] buffer size = ok (buffer, size)
serialize_peers grants host (p ∷ ps) buffer size = do
  size' ← grow grants size sizeof_serialized_peer
  serialize_peers grants host ps (buffer ++ peer_bytes host p) size'

unfoldable pub peer_info_list_serialize :
    Allocator → Host → Pointer (List PeerInfo) → Out → Out → Result (List ℕ × ℕ)
unfolding serialize_peers
peer_info_list_serialize grants host peer_info_list buffer buffer_size = do
  peers ← non_null peer_info_list
  writable buffer
  writable buffer_size
  malloc grants 8
  serialize_peers grants host peers (put_u64 host (length peers)) 8
