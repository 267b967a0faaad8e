-- ===== src/PeerDiscovery/Compare.antt =====
-- `compare_peer_info_t` tells the addresses of peers apart.
use leocoin.Prelude.{
  ℕ, ◌<◌, ◌^◌, ◌≡◌, ◌↔◌, sym, ap, ◌∙◌, true, some, List, ◌++◌, length, split_at?-append,
  bytes_eq_iff,
}
use leocoin.Endian.Memory.{Host, memory_of, uint_of, uint_of-memory_of, length-memory_of}
use leocoin.PeerDiscovery.{PeerInfo, IsPeerInfo, sockaddr_memory, compare_peer_info_t}

-- Equal lists that begin with parts of the same length have equal parts.
parts :
    (n : ℕ) {a b c d : List ℕ} → length a ≡ n → length c ≡ n → a ++ b ≡ c ++ d → (a ≡ c) × (b ≡ d)
parts n {a} {b} {c} {d} la lc e =
    let left = split_at?-append a b n la in
    let right = rw (sym e) at (split_at?-append c d n lc) in (cc (left, right), cc (left, right))

same_word :
    (host : Host) (n : ℕ) {v w : ℕ}
    → v < 256 ^ n
    → w < 256 ^ n
    → memory_of host n v ≡ memory_of host n w
    → v ≡ w
same_word host n {v} {w} hv hw e =
    sym (uint_of-memory_of host n v hv) ∙ ap (uint_of host) e ∙ uint_of-memory_of host n w hw

same_address :
    (host : Host) (p q : PeerInfo)
    → IsPeerInfo p
    → IsPeerInfo q
    → sockaddr_memory host p.listen_addr ≡ sockaddr_memory host q.listen_addr
    → p.listen_addr ≡ q.listen_addr
unfolding sockaddr_memory
same_address host p q v w e =
    let a = p.listen_addr in
    let b = q.listen_addr in
    let word = length-memory_of host in
    let (family, e1) = parts 2 (word 2 a.sin6_family) (word 2 b.sin6_family) e in
    let (port, e2) = parts 2 (word 2 a.sin6_port) (word 2 b.sin6_port) e1 in
    let (flow, e3) = parts 4 (word 4 a.sin6_flowinfo) (word 4 b.sin6_flowinfo) e2 in
    let (addr, scope) = parts 16 v.sin6_addr w.sin6_addr e3 in
    λ i. record {
      sin6_family = same_word host 2 v.sin6_family w.sin6_family family i;
      sin6_port = same_word host 2 v.sin6_port w.sin6_port port i;
      sin6_flowinfo = same_word host 4 v.sin6_flowinfo w.sin6_flowinfo flow i;
      sin6_addr = addr i;
      sin6_scope_id = same_word host 4 v.sin6_scope_id w.sin6_scope_id scope i;
    }

-- `compare_peer_info_t` returns 0 on two peers exactly if they have the same address, in all its
-- fields, whenever they last connected. The values of the fields fit their types.
pub compare_peer_info_t_iff :
    (host : Host) (p q : PeerInfo)
    → IsPeerInfo p
    → IsPeerInfo q
    → (compare_peer_info_t host (some p) (some q) ≡ true) ↔ (p.listen_addr ≡ q.listen_addr)
unfolding compare_peer_info_t
compare_peer_info_t_iff host p q v w =
    let same =
      bytes_eq_iff (sockaddr_memory host p.listen_addr) (sockaddr_memory host q.listen_addr) in
    ((λ e. same_address host p q v w (same.0 e)), (λ e. same.1 (ap (sockaddr_memory host) e)))
