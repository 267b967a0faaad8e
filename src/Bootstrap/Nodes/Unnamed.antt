-- ===== src/Bootstrap/Nodes/Unnamed.antt =====
-- An expired peer whose names are not found leaks.
use leocoin.Prelude.{
  ℕ, suc, ◌≡◌, refl, ap, ◌∙◌, Bool, true, false, Option, some, none, List, [], ◌∷◌, ◌++◌, length,
}
use leocoin.Result.{Result, ok, err, Pointer, failure_network_function}
use leocoin.PeerDiscovery.{PeerInfo}
use leocoin.Bootstrap.Nodes.{Memory, unlink, take_off, expire_node, expire_loop, expire}
use leocoin.Bootstrap.Nodes.Shape.{
  PeerCell, IsAt, HoldsPeers, AllApart, ApartFrom-nil, HoldsPeers-reverse_aux,
}
use leocoin.Bootstrap.Nodes.Steps.{unlink_lem, node_and_peer_lem}
use leocoin.Bootstrap.Nodes.Reaches.{
  unexpired_cells, rounds_before-append, AreNamed, expire_loop-Reaches,
}

module _ (expired removed : PeerInfo → Bool) where
  expire_node-unnamed :
      (m m' : Memory) (prev next : Pointer ℕ) (x : PeerCell)
      → IsAt m x next
      → expired x.peer ≡ true
      → removed x.peer ≡ false
      → unlink m prev next ≡ ok m'
      → expire_node expired removed m prev x.at_node ≡ (m', err failure_network_function)
  unfolding expire_node take_off
  expire_node-unnamed m m' prev next x at' e r u =
      rw (expire_node, node_and_peer_lem m x next at', e) (rw (take_off, u, r) refl)

  expire_loop-stops :
      (rounds : ℕ) (m m' : Memory) (prev : Pointer ℕ) (a : ℕ)
      → expire_node expired removed m prev a ≡ (m', err failure_network_function)
      → expire_loop expired removed (suc rounds) m prev (some a)
        ≡ some (m', err failure_network_function)
  unfolding expire_loop
  expire_loop-stops rounds m m' prev a e =
      rw
        (
          expire_loop,
          ap (λ (r : Memory × Result (Pointer ℕ × Pointer ℕ)). r.1) e,
          ap (λ (r : Memory × Result (Pointer ℕ × Pointer ℕ)). r.0) e,
        )
        refl

  -- On a list of peers in nodes with different addresses, each peer at an address of its own, the
  -- loop that comes to an expired peer whose names are not found, where those of the peers before it
  -- are, returns the code for a network function. The expired peers before it and its own node are
  -- off the list, and the peers behind it are not looked at; its node and the peer in it are still
  -- allocated.
  pub expire_unnamed :
      (m : Memory) (before : List PeerCell) (x : PeerCell) (rest : List PeerCell)
      → AreNamed expired removed before
      → expired x.peer ≡ true
      → removed x.peer ≡ false
      → HoldsPeers m m.list.head (before ++ x ∷ rest)
      → AllApart (before ++ x ∷ rest)
      → (m' : Memory) × (expire expired removed (suc (length (before ++ x ∷ rest))) m
          ≡ some (m', err failure_network_function))
        × HoldsPeers m' m'.list.head (unexpired_cells expired before ++ rest)
        × (next : Pointer ℕ) × IsAt m' x next
  unfolding expire
  expire_unnamed m before x rest named old unnamed h apart =
      let n = length (x ∷ rest) in
      let (s, loop) =
        expire_loop-Reaches expired removed m none m.list.head [] before (x ∷ rest) (suc n) named
          (refl, refl) h tt apart (ApartFrom-nil (before ++ x ∷ rest)) in
      let at_x = s.place in
      let (e, next, at', held) = at_x.holds in
      let (fresh, from) = at_x.apart in
      let (m', unlinked, leads, holds, u) =
        unlink_lem at_x.memory at_x.prev at_x.next next next at_x.passed rest at_x.leads
          at_x.apart_passed from held in
      let stops =
        expire_loop-stops n at_x.memory m' at_x.prev x.at_node
          (expire_node-unnamed at_x.memory m' at_x.prev next x at' old unnamed unlinked) in
      (
        m',
        rw (rounds_before-append before (x ∷ rest) n refl) at loop ∙ rw e stops,
        rw (s.order rest) at
            (HoldsPeers-reverse_aux m' at_x.prev next at_x.passed rest leads holds),
        next,
        record {
          node = u.nodes x fresh ∙ at'.node;
          peer = ap (λ (peers : ℕ → Option PeerInfo). peers x.at_peer) u.peers ∙ at'.peer;
        },
      )
