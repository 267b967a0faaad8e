-- ===== src/Examples/Peers.antt =====
-- The theorems on src/peer_discovery.c at concrete values.
use leocoin.Prelude.{
  ℕ, ◌+◌, ◌*◌, ◌≡◌, ◌≢◌, ◌↔◌, refl, sym, true, some, List, [], ◌∷◌, ◌++◌, arith, length,
  length-replicate, replicate,
}
use leocoin.Result.{ok, fault, given}
use leocoin.PeerDiscovery.{PeerInfo, IsPeerInfo, compare_peer_info_t}
use leocoin.PeerDiscovery.Compare.{compare_peer_info_t_iff}
use leocoin.PeerDiscovery.Serialize.{peer_info_list_serialize}
use leocoin.PeerDiscovery.Deserialize.{peer_info_list_deserialize}
use leocoin.PeerDiscovery.Roundtrip.{peer_info_list_deserialize-serialize}
use leocoin.PeerDiscovery.Safety.{peer_info_list_deserialize_in_bounds}
use leocoin.Examples.Data.{host, grants_all}

abbrev peer : PeerInfo
peer = record {
  listen_addr = record {
    sin6_family = 10;
    sin6_port = 12345;
    sin6_flowinfo = 7;
    sin6_addr = replicate 16 254;
    sin6_scope_id = 3;
  };
  last_connected = 1700000000;
}

peer-IsPeerInfo : IsPeerInfo peer
peer-IsPeerInfo = record {
  sin6_family = omega arith;
  sin6_port = omega arith;
  sin6_flowinfo = omega arith;
  sin6_addr = length-replicate {A = ℕ} 16 254;
  sin6_scope_id = omega arith;
  last_connected = omega arith;
}

abbrev peers : List PeerInfo
peers = peer ∷ peer ∷ []

peer_info_list_deserialize-serialize_example :
    (bytes : List ℕ) × (peer_info_list_serialize grants_all host (some peers) given given
      ≡ ok (bytes, 8 + 36 * length peers))
    × (length bytes ≡ 8 + 36 * length peers)
    × (peer_info_list_deserialize (λ _. grants_all) host given (some (bytes ++ 1 ∷ [])) 81
        ≡ ok peers)
peer_info_list_deserialize-serialize_example =
    peer_info_list_deserialize-serialize grants_all (λ _. grants_all) host peers (1 ∷ []) 81
      (peer-IsPeerInfo, (peer-IsPeerInfo, tt)) (omega arith) (λ _ _. refl) (λ _ _. refl)
      (omega arith)

-- A buffer that announces more peers than it has bytes for.
abbrev announced : List ℕ
announced = replicate 9 255

peer_info_list_deserialize_in_bounds_example :
    peer_info_list_deserialize (λ _. grants_all) host given (some announced) 9 ≢ fault
peer_info_list_deserialize_in_bounds_example =
    peer_info_list_deserialize_in_bounds (λ _. grants_all) host given (some announced) 9
      λ bytes e.
        let e' : announced ≡ bytes = cc in
        rw (sym e') (omega (arith, length-replicate {A = ℕ} 9 255))

compare_peer_info_t_iff_example :
    (compare_peer_info_t host (some peer) (some (record peer { last_connected = 5 })) ≡ true)
    ↔ (peer.listen_addr ≡ peer.listen_addr)
compare_peer_info_t_iff_example =
    compare_peer_info_t_iff host peer (record peer { last_connected = 5 }) peer-IsPeerInfo
      (record {
        sin6_family = omega arith;
        sin6_port = omega arith;
        sin6_flowinfo = omega arith;
        sin6_addr = length-replicate {A = ℕ} 16 254;
        sin6_scope_id = omega arith;
        last_connected = omega arith;
      })
