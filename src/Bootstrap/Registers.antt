-- ===== src/Bootstrap/Registers.antt =====
-- What the list of peers holds after a registration.
use mathlib.Core.List.{reverse_aux}
use leocoin.Prelude.{
  ℕ, ◌≡◌, refl, ap, Bool, true, false, ◌||◌, List, [], ◌∷◌, length, Bool-cases, inl, inr, some,
  if◌then◌else◌,
}
use leocoin.Result.{ok}
use leocoin.Endian.Memory.{Host}
use leocoin.PeerDiscovery.{PeerInfo, compare_peer_info_t}
use leocoin.Bootstrap.{Entry, live, find_peer, update_found, linked_behind, remove_expired}

abbrev pub live_all : List PeerInfo → List Entry
live_all [] = []
live_all (p ∷ ps) = live p ∷ live_all ps

module _ (host : Host) (p : PeerInfo) where
  -- Whether a peer with the same address is there, and the list with the first of them updated.
  unfoldable pub known : List PeerInfo → Bool
  known [] = false
  known (q ∷ ps) = compare_peer_info_t host (some p) (some q) || known ps

  unfoldable pub touched : List PeerInfo → List PeerInfo
  touched [] = []
  touched (q ∷ ps) =
      let rest = touched ps in
      if compare_peer_info_t host (some p) (some q)
      then record q { last_connected = p.last_connected } ∷ ps
      else q ∷ rest

  -- The list with the peer in it.
  unfoldable pub registered : List PeerInfo → List PeerInfo
  unfolding known touched
  registered ps = if known ps then touched ps else p ∷ ps

  pub find_peer-live_all : (ps : List PeerInfo) → find_peer host p (live_all ps) ≡ ok (known ps)
  unfolding find_peer known
  find_peer-live_all [] = refl
  find_peer-live_all (q ∷ ps) = elim (Bool-cases (compare_peer_info_t host (some p) (some q))) [
    | inl same ↦ rw same
    | inr other ↦ rw other (find_peer-live_all ps)
  ]

  pub update_found-live_all :
      (ps : List PeerInfo) → update_found host p (live_all ps) ≡ live_all (touched ps)
  unfolding update_found touched
  update_found-live_all [] = refl
  update_found-live_all (q ∷ ps) = elim (Bool-cases (compare_peer_info_t host (some p) (some q))) [
    | inl same ↦ rw same
    | inr other ↦ rw other (ap (λ (es : List Entry). live q ∷ es) (update_found-live_all ps))
  ]

module _ (expired : PeerInfo → Bool) where
  -- The peers that have not expired, in their order.
  unfoldable pub unexpired : List PeerInfo → List PeerInfo
  unexpired [] = []
  unexpired (p ∷ ps) = let rest = unexpired ps in if expired p then rest else p ∷ rest

pub linked_behind-live_all :
    (kept ps : List PeerInfo) → linked_behind kept (live_all ps) ≡ live_all (reverse_aux kept ps)
linked_behind-live_all [] ps = refl
linked_behind-live_all (p ∷ kept) ps = linked_behind-live_all kept (p ∷ ps)

module _ (expired : PeerInfo → Bool) (removed : ℕ → Bool) where
  pub remove_expired-unlinked :
      (kept : List PeerInfo) (p : PeerInfo) (ps : List PeerInfo)
      → expired p ≡ true
      → removed (length (live_all ps)) ≡ true
      → remove_expired expired removed kept (live_all (p ∷ ps))
        ≡ remove_expired expired removed kept (live_all ps)
  unfolding remove_expired
  remove_expired-unlinked kept p ps e r = rw (e, r)

  pub remove_expired-next :
      (kept : List PeerInfo) (p : PeerInfo) (ps : List PeerInfo)
      → expired p ≡ false
      → remove_expired expired removed kept (live_all (p ∷ ps))
        ≡ remove_expired expired removed (p ∷ kept) (live_all ps)
  unfolding remove_expired
  remove_expired-next kept p ps e = rw e

  pub remove_expired_lem :
      ((n : ℕ) → removed n ≡ true)
      → (kept ps : List PeerInfo)
      → remove_expired expired removed kept (live_all ps) ≡ (
        live_all (reverse_aux kept (unexpired expired ps)),
        ok (reverse_aux kept (unexpired expired ps)),
      )
  unfolding unexpired
  remove_expired_lem r kept [] = unfold remove_expired in rw (linked_behind-live_all kept []) refl
  remove_expired_lem r kept (p ∷ ps) = elim (Bool-cases (expired p)) [
    | inl e ↦
        rw (e, remove_expired-unlinked kept p ps e (r (length (live_all ps))))
          (remove_expired_lem r kept ps)
    | inr e ↦ rw (e, remove_expired-next kept p ps e) (remove_expired_lem r (p ∷ kept) ps)
  ]
