-- ===== src/Bootstrap/Nodes/Refines.antt =====
-- The loop over the nodes does what the loop over the list of the peers does.
use leocoin.Prelude.{
  suc, ◌≡◌, refl, ap, ◌∙◌, Bool, true, none, some, List, [], ◌∷◌, ◌++◌, append-nil, length,
}
use leocoin.Result.{ok}
use leocoin.PeerDiscovery.{PeerInfo}
use leocoin.Bootstrap.{remove_expired}
use leocoin.Bootstrap.Registers.{live_all, remove_expired_lem}
use leocoin.Bootstrap.Nodes.{Memory, expire_loop, expire}
use leocoin.Bootstrap.Nodes.Reaches.{
  expired_cells, unexpired_cells, peers_of-unexpired_cells, rounds_before, rounds_before-append,
  AreNamed, expire_loop-Reaches,
}
use leocoin.Bootstrap.Nodes.Shape.{
  PeerCell, peers_of, HoldsPeers, AllApart, ApartFrom-nil, AreFreed, HoldsPeers-reverse_aux,
}

module _ (expired removed : PeerInfo → Bool) where
  -- On a list of peers in nodes with different addresses, each peer at an address of its own, where
  -- the names of the peers are found, the loop over the nodes ends after one round more than there
  -- are nodes. It leaves a list of those peers, in their nodes and their order, that the loop over
  -- the list of the peers leaves, and it has freed the nodes of the others and the peers in them.
  pub expire-remove_expired :
      ((p : PeerInfo) → removed p ≡ true)
      → (m : Memory) (xs : List PeerCell) → HoldsPeers m m.list.head xs
      → AllApart xs
      → (m' : Memory) × (expire expired removed (suc (length xs)) m ≡ some (m', ok tt))
        × HoldsPeers m' m'.list.head (unexpired_cells expired xs)
        × (remove_expired expired (λ _. true) [] (live_all (peers_of xs)) ≡ (
          live_all (peers_of (unexpired_cells expired xs)),
          ok (peers_of (unexpired_cells expired xs)),
        ))
        × AreFreed m' (expired_cells expired xs)
  unfolding expire expire_loop
  expire-remove_expired r m xs h apart =
      let named : AreNamed expired removed xs = all_named xs in
      let whole = append-nil xs in
      let (s, loop) =
        expire_loop-Reaches expired removed m none m.list.head [] xs [] 1 named (refl, refl)
          (rw whole h) tt (rw whole apart) (ApartFrom-nil (xs ++ [])) in
      let rounds : rounds_before xs 1 ≡ suc (length xs) =
        rounds_before-append xs [] 0 refl ∙ ap (λ (ys : List PeerCell). suc (length ys)) whole in
      let at_end = s.place in
      let order = s.order [] ∙ append-nil (unexpired_cells expired xs) in
      (
        at_end.memory,
        rw rounds at loop ∙ rw at_end.holds refl,
        rw order at (
            HoldsPeers-reverse_aux at_end.memory at_end.prev at_end.next at_end.passed []
              at_end.leads at_end.holds),
        rw (peers_of-unexpired_cells expired xs)
            (remove_expired_lem expired (λ _. true) (λ n. refl) [] (peers_of xs)),
        s.freed,
      )
    where
      all_named : (ys : List PeerCell) → AreNamed expired removed ys
      all_named [] = tt
      all_named (y ∷ ys) = (r y.peer, all_named ys)
