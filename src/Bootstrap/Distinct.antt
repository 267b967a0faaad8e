-- ===== src/Bootstrap/Distinct.antt =====
-- The list of peers never has the same address twice.
use mathlib.Core.List.{reverse_aux}
use leocoin.Prelude.{
  ℕ, ◌≡◌, refl, Bool, true, false, List, [], ◌∷◌, All, some, Bool-cases, inl, inr, length,
}
use leocoin.Endian.Memory.{Host}
use leocoin.PeerDiscovery.{PeerInfo, compare_peer_info_t}
use leocoin.Io.{Io, done, IsAny, Ensures-IsAny, then_with-Ensures}
use leocoin.Bootstrap.{
  Entry, Request, register_peer, peer_expired, remove_expired, read_registration,
  handle_one_peer_discovery_request,
}
use leocoin.Bootstrap.Registers.{
  live_all, known, touched, find_peer-live_all, update_found-live_all, linked_behind-live_all,
  remove_expired-unlinked, remove_expired-next,
}

-- A list, and the list without one of its peers.
data Dropped : List PeerInfo → List PeerInfo → Type 0 where
  first : (p : PeerInfo) (ps : List PeerInfo) → Dropped (p ∷ ps) ps
  later : (p : PeerInfo) {ps qs : List PeerInfo} → Dropped ps qs → Dropped (p ∷ ps) (p ∷ qs)

Dropped-reverse_aux :
    (kept : List PeerInfo) {ps qs : List PeerInfo}
    → Dropped ps qs
    → Dropped (reverse_aux kept ps) (reverse_aux kept qs)
Dropped-reverse_aux [] d = d
Dropped-reverse_aux (k ∷ kept) d = Dropped-reverse_aux kept (later k d)

module _ (host : Host) where
  abbrev pub IsUnlike : PeerInfo → PeerInfo → Type 0
  IsUnlike p q = compare_peer_info_t host (some p) (some q) ≡ false

  -- No peer has the address of a later one.
  abbrev pub IsDistinct : List PeerInfo → Type 0
  IsDistinct [] = Unit {0}
  IsDistinct (p ∷ ps) = All (IsUnlike p) ps × IsDistinct ps

  -- The nodes hold live peers with different addresses.
  pub record IsListed (es : List Entry) : Type 0 where
    pub peers : List PeerInfo
    pub live : es ≡ live_all peers
    pub distinct : IsDistinct peers

  unknown-IsUnlike :
      (p : PeerInfo) (ps : List PeerInfo) → known host p ps ≡ false → All (IsUnlike p) ps
  unfolding known
  unknown-IsUnlike p [] h = tt
  unknown-IsUnlike p (q ∷ ps) h = elim (Bool-cases (compare_peer_info_t host (some p) (some q))) [
    | inl e ↦ absurd (cc (rw e at h))
    | inr e ↦ (e, unknown-IsUnlike p ps (rw e at h))
  ]

  touched-IsUnlike :
      (x p : PeerInfo) (ps : List PeerInfo)
      → All (IsUnlike x) ps
      → All (IsUnlike x) (touched host p ps)
  unfolding touched compare_peer_info_t
  touched-IsUnlike x p [] h = tt
  touched-IsUnlike x p (q ∷ ps) (h, hs) =
      elim (Bool-cases (compare_peer_info_t host (some p) (some q))) [
        | inl e ↦ rw e (h, hs)
        | inr e ↦ rw e (h, touched-IsUnlike x p ps hs)
      ]

  touched-IsDistinct :
      (p : PeerInfo) (ps : List PeerInfo) → IsDistinct ps → IsDistinct (touched host p ps)
  unfolding touched compare_peer_info_t
  touched-IsDistinct p [] v = tt
  touched-IsDistinct p (q ∷ ps) (v, vs) =
      elim (Bool-cases (compare_peer_info_t host (some p) (some q))) [
        | inl e ↦ rw e (v, vs)
        | inr e ↦ rw e (touched-IsUnlike q p ps v, touched-IsDistinct p ps vs)
      ]

  All-Dropped :
      (x : PeerInfo) {ps qs : List PeerInfo}
      → Dropped ps qs
      → All (IsUnlike x) ps
      → All (IsUnlike x) qs
  All-Dropped x (first p ps) (h, hs) = hs
  All-Dropped x (later p d) (h, hs) = (h, All-Dropped x d hs)

  IsDistinct-Dropped : {ps qs : List PeerInfo} → Dropped ps qs → IsDistinct ps → IsDistinct qs
  IsDistinct-Dropped (first p ps) (v, vs) = vs
  IsDistinct-Dropped (later p d) (v, vs) = (All-Dropped p d v, IsDistinct-Dropped d vs)

  abbrev listed : (ps : List PeerInfo) → IsDistinct ps → IsListed (live_all ps)
  listed ps v = record { peers = ps; live = refl; distinct = v }

  -- However the loop ends, what it leaves is listed.
  remove_expired-IsListed :
      (expired : PeerInfo → Bool) (removed : ℕ → Bool) (kept ps : List PeerInfo)
      → IsDistinct (reverse_aux kept ps)
      → IsListed (remove_expired expired removed kept (live_all ps)).0
  unfolding remove_expired
  remove_expired-IsListed expired removed kept [] v =
      rw (linked_behind-live_all kept []) (listed _ v)
  remove_expired-IsListed expired removed kept (p ∷ ps) v = elim (Bool-cases (expired p)) [
    | inr e ↦
        rw (remove_expired-next expired removed kept p ps e)
          (remove_expired-IsListed expired removed (p ∷ kept) ps v)
    | inl e ↦
        let w = IsDistinct-Dropped (Dropped-reverse_aux kept (first p ps)) v in
        elim (Bool-cases (removed (length (live_all ps)))) [
          | inl r ↦
              rw (remove_expired-unlinked expired removed kept p ps e r)
                (remove_expired-IsListed expired removed kept ps w)
          | inr r ↦ rw (remove_expired, e, r, linked_behind-live_all kept ps) (listed _ w)
        ]
  ]

  register_peer-IsListed :
      (request : Request) (p : PeerInfo) (ps : List PeerInfo)
      → request.announced ≡ true
      → IsDistinct ps
      → IsListed (register_peer host request p (live_all ps)).0
  unfolding register_peer
  register_peer-IsListed request p ps a v = elim (Bool-cases (known host p ps)) [
    | inl e ↦
        rw (register_peer, find_peer-live_all host p ps, e, update_found-live_all host p ps)
          (listed _ (touched-IsDistinct p ps v))
    | inr e ↦ elim (Bool-cases request.grants_node) [
      | inl g ↦
          rw (register_peer, find_peer-live_all host p ps, e, g, a)
            (listed (p ∷ ps) (unknown-IsUnlike p ps e, v))
      | inr g ↦ rw (register_peer, find_peer-live_all host p ps, e, g) (listed ps v)
    ]
  ]

  module _ (exceeds : ℕ → ℕ → Bool) (keepalive : ℕ) where
    pub handle_one_peer_discovery_request-IsListed :
        (request : Request) (es : List Entry)
        → request.announced ≡ true
        → IsListed es
        → IsListed (handle_one_peer_discovery_request exceeds keepalive host request es).0
    unfolding handle_one_peer_discovery_request
    handle_one_peer_discovery_request-IsListed request es a l =
        let read = read_registration exceeds keepalive host request in
        then_with-Ensures IsAny IsListed es read _ (Ensures-IsAny read) l λ p _.
          let locked : Io (Unit {0}) = done request.lock in
          then_with-Ensures IsAny IsListed es locked _ (Ensures-IsAny locked) l λ _ _.
            let after = register_peer host request p es in
            let ok' : IsListed after.0 =
              rw l.live (register_peer-IsListed request p l.peers a l.distinct) in
            let stored : Io (Unit {0}) = done after.1 in
            then_with-Ensures IsAny IsListed after.0 stored _ (Ensures-IsAny stored) ok' λ _ _.
              let expired = peer_expired exceeds keepalive request.current_time in
              let left = remove_expired expired request.removed [] after.0 in
              let ok'' : IsListed left.0 =
                rw ok'.live
                  (remove_expired-IsListed expired request.removed [] ok'.peers ok'.distinct) in
              let kept : Io (List PeerInfo) = done left.1 in
              then_with-Ensures IsAny IsListed left.0 kept _ (Ensures-IsAny kept) ok'' λ ps _. ok''
