-- ===== src/Bootstrap/Current.antt =====
-- The peers that are left in the list after a registration.
use mathlib.Core.List.{Memᴰ}
use leocoin.Prelude.{
  ℕ, suc, ◌+◌, ◌≤◌, ◌≡◌, refl, ap, true, false, Bool, List, [], ◌∷◌, length, arith, some, All,
  Bool-cases, inl, inr,
}
use leocoin.Endian.Memory.{Host}
use leocoin.PeerDiscovery.{PeerInfo, IsPeerInfo, compare_peer_info_t}
use leocoin.PeerDiscovery.Compare.{compare_peer_info_t_iff}
use leocoin.Result.{ok}
use leocoin.Io.{done}
use leocoin.Bootstrap.{Request, peer_expired, read_registration, handle_one_peer_discovery_request}
use leocoin.Bootstrap.Registers.{live_all, known, touched, registered, unexpired}
use leocoin.Bootstrap.Answers.{IsOrderly, handle_one_peer_discovery_request-registered}

module _ (expired : PeerInfo → Bool) where
  pub All-unexpired :
      (P : PeerInfo → Type 0) (ps : List PeerInfo) → All P ps → All P (unexpired expired ps)
  unfolding unexpired
  All-unexpired P [] v = tt
  All-unexpired P (p ∷ ps) (v, vs) = elim (Bool-cases (expired p)) [
    | inl e ↦ rw e (All-unexpired P ps vs)
    | inr e ↦ rw e (v, All-unexpired P ps vs)
  ]

  pub length-unexpired : (ps : List PeerInfo) → length (unexpired expired ps) ≤ length ps
  unfolding unexpired
  length-unexpired [] = omega arith
  length-unexpired (p ∷ ps) = elim (Bool-cases (expired p)) [
    | inl e ↦ rw e (omega (arith, length-unexpired ps))
    | inr e ↦ rw e (omega (arith, length-unexpired ps))
  ]

  unexpired-current :
      (ps : List PeerInfo) → All (λ (p : PeerInfo). expired p ≡ false) (unexpired expired ps)
  unfolding unexpired
  unexpired-current [] = tt
  unexpired-current (p ∷ ps) = elim (Bool-cases (expired p)) [
    | inl e ↦ rw e (unexpired-current ps)
    | inr e ↦ rw e (e, unexpired-current ps)
  ]

  Mem-unexpired :
      (x : PeerInfo) (ps : List PeerInfo)
      → expired x ≡ false
      → Memᴰ x ps
      → Memᴰ x (unexpired expired ps)
  unfolding unexpired
  Mem-unexpired x [] current m = elim m [ ]
  Mem-unexpired x (p ∷ ps) current (Memᴰ.head e) = rw (rw e at current) (Memᴰ.head e)
  Mem-unexpired x (p ∷ ps) current (Memᴰ.tail m) = elim (Bool-cases (expired p)) [
    | inl e ↦ rw e (Mem-unexpired x ps current m)
    | inr e ↦ rw e (Memᴰ.tail (Mem-unexpired x ps current m))
  ]

module _ (host : Host) (p : PeerInfo) (v : IsPeerInfo p) where
  touched-IsPeerInfo : (ps : List PeerInfo) → All IsPeerInfo ps → All IsPeerInfo (touched host p ps)
  unfolding touched
  touched-IsPeerInfo [] vs = tt
  touched-IsPeerInfo (q ∷ ps) (w, vs) =
      elim (Bool-cases (compare_peer_info_t host (some p) (some q))) [
        | inl e ↦ rw e (
          record {
            sin6_family = w.sin6_family;
            sin6_port = w.sin6_port;
            sin6_flowinfo = w.sin6_flowinfo;
            sin6_addr = w.sin6_addr;
            sin6_scope_id = w.sin6_scope_id;
            last_connected = v.last_connected;
          },
          vs,
        )
        | inr e ↦ rw e (w, touched-IsPeerInfo ps vs)
      ]

  length-touched : (ps : List PeerInfo) → length (touched host p ps) ≡ length ps
  unfolding touched
  length-touched [] = refl
  length-touched (q ∷ ps) = elim (Bool-cases (compare_peer_info_t host (some p) (some q))) [
    | inl e ↦ rw e refl
    | inr e ↦ rw e (ap suc (length-touched ps))
  ]

  pub registered-IsPeerInfo :
      (ps : List PeerInfo) → All IsPeerInfo ps → All IsPeerInfo (registered host p ps)
  unfolding registered
  registered-IsPeerInfo ps vs = elim (Bool-cases (known host p ps)) [
    | inl e ↦ rw e (touched-IsPeerInfo ps vs)
    | inr e ↦ rw e (v, vs)
  ]

  pub length-registered : (ps : List PeerInfo) → length (registered host p ps) ≤ length ps + 1
  unfolding registered
  length-registered ps = elim (Bool-cases (known host p ps)) [
    | inl e ↦ rw e (omega (arith, length-touched ps))
    | inr e ↦ rw e (omega arith)
  ]

  Mem-touched :
      (ps : List PeerInfo) → All IsPeerInfo ps → known host p ps ≡ true → Memᴰ p (touched host p ps)
  unfolding touched known
  Mem-touched [] vs k = absurd (cc)
  Mem-touched (q ∷ ps) (w, vs) k = elim (Bool-cases (compare_peer_info_t host (some p) (some q))) [
    | inl e ↦
        let same = (compare_peer_info_t_iff host p q v w).0 e in
        rw e (Memᴰ.head (λ i. record { listen_addr = same i; last_connected = p.last_connected }))
    | inr e ↦ rw e (Memᴰ.tail (Mem-touched ps vs (rw e at k)))
  ]

  Mem-registered : (ps : List PeerInfo) → All IsPeerInfo ps → Memᴰ p (registered host p ps)
  unfolding registered
  Mem-registered ps vs = elim (Bool-cases (known host p ps)) [
    | inl e ↦ rw e (Mem-touched ps vs e)
    | inr e ↦ rw e (Memᴰ.head refl)
  ]

module _ (exceeds : ℕ → ℕ → Bool) (keepalive : ℕ) (host : Host) (request : Request) where
  -- After a registration that is received, with memory for the node, the names and the mutex at hand,
  -- no peer in the list of live peers has expired, and the peer that registered, which has not expired
  -- itself, is in it with the time of its registration. The values of the peers fit their types.
  pub handle_one_peer_discovery_request-current :
      (p : PeerInfo) (ps : List PeerInfo)
      → IsOrderly request
      → read_registration exceeds keepalive host request ≡ done (ok p)
      → IsPeerInfo p
      → All IsPeerInfo ps
      → peer_expired exceeds keepalive request.current_time p ≡ false
      → (qs : List PeerInfo) × ((handle_one_peer_discovery_request exceeds keepalive host request
            (live_all ps)).0
          ≡ live_all qs)
        × All (λ (q : PeerInfo). peer_expired exceeds keepalive request.current_time q ≡ false) qs
        × Memᴰ p qs
  handle_one_peer_discovery_request-current p ps v read w ws current =
      let expired = peer_expired exceeds keepalive request.current_time in
      let qs = unexpired expired (registered host p ps) in
      (
        qs,
        ap (λ r. r.0)
            (handle_one_peer_discovery_request-registered exceeds keepalive host request p ps v
              read),
        unexpired-current expired (registered host p ps),
        Mem-unexpired expired p (registered host p ps) current (Mem-registered host p w ps ws),
      )
