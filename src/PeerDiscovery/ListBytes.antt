-- ===== src/PeerDiscovery/ListBytes.antt =====
-- The bytes of a list of peers, and what is read back from them.
use leocoin.Prelude.{
  ℕ, ◌+◌, ◌≤◌, ◌<◌, ◌^◌, ◌≡◌, refl, sym, true, some, List, [], ◌∷◌, ◌++◌, append_assoc, append-nil,
  arith, length, length-append, All, ◌*◌,
}
use leocoin.Result.{ok, Allocator, given}
use leocoin.Endian.Memory.{Host}
use leocoin.Buffer.{cursor, put_u64, put_net}
use leocoin.Buffer.Laws.{
  read_u64-put_u64, read_net-put_net, field-append, length-put_u64, length-put_net,
}
use leocoin.Blockchain.Codec.{GrantsUpTo, grow_lem}
use leocoin.PeerDiscovery.{PeerInfo, IsPeerInfo}
use leocoin.PeerDiscovery.Serialize.{peer_bytes, serialize_peers, peer_info_list_serialize}
use leocoin.PeerDiscovery.Deserialize.{
  Allocators, allocate_at, read_peer, read_peers, read_peer_list, peer_info_list_deserialize,
}

length-peer_bytes : (host : Host) (p : PeerInfo) → IsPeerInfo p → length (peer_bytes host p) ≡ 36
unfolding peer_bytes
length-peer_bytes host p v =
    let a = p.listen_addr in
    let d = put_net host 4 a.sin6_scope_id ++ put_u64 host p.last_connected in
    let c = put_net host 4 a.sin6_flowinfo ++ (a.sin6_addr ++ d) in
    omega (
      arith,
      length-append (put_net host 2 a.sin6_family) (put_net host 2 a.sin6_port ++ c),
      length-append (put_net host 2 a.sin6_port) c,
      length-append (put_net host 4 a.sin6_flowinfo) (a.sin6_addr ++ d),
      length-append a.sin6_addr d,
      length-append (put_net host 4 a.sin6_scope_id) (put_u64 host p.last_connected),
      length-put_net host 2 a.sin6_family,
      length-put_net host 2 a.sin6_port,
      length-put_net host 4 a.sin6_flowinfo,
      length-put_net host 4 a.sin6_scope_id,
      length-put_u64 host p.last_connected,
      v.sin6_addr,
    )

-- The format of the peers, one behind the other.
unfoldable pub peers_bytes : Host → List PeerInfo → List ℕ
peers_bytes host [] = []
peers_bytes host (p ∷ ps) = peer_bytes host p ++ peers_bytes host ps

length-peers_bytes :
    (host : Host) (ps : List PeerInfo)
    → All IsPeerInfo ps
    → length (peers_bytes host ps) ≡ 36 * length ps
unfolding peers_bytes
length-peers_bytes host [] v = refl
length-peers_bytes host (p ∷ ps) (v, vs) = omega (
  arith,
  length-append (peer_bytes host p) (peers_bytes host ps),
  length-peer_bytes host p v,
  length-peers_bytes host ps vs,
)

module _ (grants : Allocator) (host : Host) (total : ℕ) (fits : total < 2 ^ 64)
    (granted : GrantsUpTo total grants) where
  serialize_peers_lem :
      (ps : List PeerInfo) (buffer : List ℕ) (size : ℕ)
      → size + 36 * length ps ≤ total
      → serialize_peers grants host ps buffer size
        ≡ ok (buffer ++ peers_bytes host ps, size + 36 * length ps)
  unfolding serialize_peers peers_bytes
  serialize_peers_lem [] buffer size h =
      λ i. ok (sym (append-nil buffer) i, (let e : size ≡ size + 0 = omega arith in e) i)
  serialize_peers_lem (p ∷ ps) buffer size h =
      let sum : size + 36 + 36 * length ps ≡ size + 36 * length (p ∷ ps) = omega arith in
      rw
        (
          grow_lem grants host total fits granted size 36 (omega arith),
          serialize_peers_lem ps (buffer ++ peer_bytes host p) (size + 36) (omega arith),
        )
        (λ i. ok (append_assoc buffer (peer_bytes host p) (peers_bytes host ps) i, sum i))

-- The requests for memory are granted.
abbrev pub GrantsAll : Allocators → Type 0
GrantsAll heap = (offset size : ℕ) → heap offset size ≡ true

module _ (heap : Allocators) (host : Host) (size : ℕ) (granted : GrantsAll heap) where
  read_peer-peer_bytes :
      (p : PeerInfo) (off : ℕ) (rest : List ℕ)
      → IsPeerInfo p
      → off + 36 ≤ size
      → read_peer heap host size (cursor off (peer_bytes host p ++ rest))
        ≡ ok (p, cursor (off + 36) rest)
  unfolding read_peer peer_bytes allocate_at
  read_peer-peer_bytes p off rest v room =
      let a = p.listen_addr in
      let e = put_u64 host p.last_connected ++ rest in
      let d = put_net host 4 a.sin6_scope_id ++ e in
      let c = put_net host 4 a.sin6_flowinfo ++ (a.sin6_addr ++ d) in
      let end : off + 2 + 2 + 4 + 16 + 4 + 8 ≡ off + 36 = omega arith in
      simp append_assoc (
        rw
          (
            read_net-put_net host size 2 a.sin6_family off (put_net host 2 a.sin6_port ++ c)
                v.sin6_family (omega arith),
            read_net-put_net host size 2 a.sin6_port (off + 2) c v.sin6_port (omega arith),
            read_net-put_net host size 4 a.sin6_flowinfo (off + 2 + 2) (a.sin6_addr ++ d)
                v.sin6_flowinfo (omega arith),
            field-append size a.sin6_addr d (off + 2 + 2 + 4) 16 v.sin6_addr (omega arith),
            read_net-put_net host size 4 a.sin6_scope_id (off + 2 + 2 + 4 + 16) e v.sin6_scope_id
                (omega arith),
            read_u64-put_u64 host size p.last_connected (off + 2 + 2 + 4 + 16 + 4) rest
                v.last_connected (omega arith),
            granted (off + 2 + 2 + 4 + 16 + 4 + 8) 40,
            granted (off + 2 + 2 + 4 + 16 + 4 + 8) 16,
          )
          (λ i. ok (p, cursor (end i) rest)))

  read_peers-peers_bytes :
      (ps : List PeerInfo) (off : ℕ) (rest : List ℕ)
      → All IsPeerInfo ps
      → off + 36 * length ps ≤ size
      → read_peers heap host size (length ps) (cursor off (peers_bytes host ps ++ rest))
        ≡ ok (ps, cursor (off + 36 * length ps) rest)
  unfolding read_peers peers_bytes
  read_peers-peers_bytes [] off rest v room =
      let e : off ≡ off + 0 = omega arith in λ i. ok ([], cursor (e i) rest)
  read_peers-peers_bytes (p ∷ ps) off rest (v, vs) room =
      let e : off + 36 + 36 * length ps ≡ off + 36 * length (p ∷ ps) = omega arith in
      rw
        (
          append_assoc (peer_bytes host p) (peers_bytes host ps) rest,
          read_peer-peer_bytes p off (peers_bytes host ps ++ rest) v (omega arith),
          read_peers-peers_bytes ps (off + 36) rest vs (omega arith),
        )
        (λ i. ok (p ∷ ps, cursor (e i) rest))

-- The format of a list.
unfoldable pub peer_list_bytes : Host → List PeerInfo → List ℕ
unfolding peers_bytes
peer_list_bytes host ps = put_u64 host (length ps) ++ peers_bytes host ps

pub length-peer_list_bytes :
    (host : Host) (ps : List PeerInfo)
    → All IsPeerInfo ps
    → length (peer_list_bytes host ps) ≡ 8 + 36 * length ps
unfolding peer_list_bytes
length-peer_list_bytes host ps v = omega (
  arith,
  length-append (put_u64 host (length ps)) (peers_bytes host ps),
  length-put_u64 host (length ps),
  length-peers_bytes host ps v,
)

pub peer_info_list_serialize_lem :
    (grants : Allocator) (host : Host) (ps : List PeerInfo)
    → 8 + 36 * length ps < 2 ^ 64
    → GrantsUpTo (8 + 36 * length ps) grants
    → peer_info_list_serialize grants host (some ps) given given
      ≡ ok (peer_list_bytes host ps, 8 + 36 * length ps)
unfolding peer_info_list_serialize peer_list_bytes
peer_info_list_serialize_lem grants host ps fits granted = rw (
  granted 8 (omega arith),
  serialize_peers_lem grants host (8 + 36 * length ps) fits granted ps (put_u64 host (length ps)) 8
      (omega arith),
)

pub peer_info_list_deserialize_lem :
    (heap : Allocators) (host : Host) (ps : List PeerInfo) (rest : List ℕ) (size : ℕ)
    → All IsPeerInfo ps
    → 8 + 36 * length ps < 2 ^ 64
    → GrantsAll heap
    → 8 + 36 * length ps ≤ size
    → peer_info_list_deserialize heap host given (some (peer_list_bytes host ps ++ rest)) size
      ≡ ok ps
unfolding peer_info_list_deserialize read_peer_list allocate_at peer_list_bytes
peer_info_list_deserialize_lem heap host ps rest size v fits all room = rw (
  append_assoc (put_u64 host (length ps)) (peers_bytes host ps) rest,
  read_u64-put_u64 host size (length ps) 0 (peers_bytes host ps ++ rest) (omega arith)
      (omega arith),
  all 8 24,
  read_peers-peers_bytes heap host size all ps 8 rest v (omega arith),
)
