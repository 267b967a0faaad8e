-- ===== src/Examples/Nodes.antt =====
-- The expiry loop on the nodes of a list at concrete values.
use leocoin.Prelude.{
  ℕ, ◌+◌, ◌≡◌, refl, Bool, true, Option, none, some, List, [], ◌∷◌, ◌++◌, ◌==◌, if◌then◌else◌, ltb,
}
use leocoin.Result.{ok, err, Pointer, failure_network_function}
use leocoin.PeerDiscovery.{PeerInfo}
use leocoin.LinkedList.{Node}
use leocoin.Bootstrap.{remove_expired}
use leocoin.Bootstrap.Registers.{live_all}
use leocoin.Bootstrap.Nodes.{Memory, expire}
use leocoin.Bootstrap.Nodes.Shape.{PeerCell, HoldsPeers, IsAt, AllApart, AreFreed, peers_of}
use leocoin.Bootstrap.Nodes.Reaches.{expired_cells, unexpired_cells}
use leocoin.Bootstrap.Nodes.Refines.{expire-remove_expired}
use leocoin.Bootstrap.Nodes.Unnamed.{expire_unnamed}
use leocoin.Discovery.Registration.{peer_at}
use leocoin.Examples.Bootstrap.{address}

-- Three peers, of which the second has expired.
abbrev cell : ℕ → ℕ → PeerCell
cell n last_connected = record {
  at_node = n;
  at_peer = n + 10;
  peer = peer_at (address n) last_connected;
}

abbrev cells : List PeerCell
cells = cell 1 100 ∷ cell 2 50 ∷ cell 3 100 ∷ []

abbrev node_to : ℕ → Option ℕ → Option Node
node_to n next = some (record { data' = n + 10; next = next })

abbrev memory : Memory
memory = record {
  list = record {
    head = some 1;
    nodes = λ a.
        if a == 1
        then node_to 1 (some 2)
        else if a == 2
        then node_to 2 (some 3)
        else if a == 3
        then node_to 3 none
        else none;
  };
  peers = λ d.
      if d == 11
      then some (peer_at (address 1) 100)
      else if d == 12
      then some (peer_at (address 2) 50)
      else if d == 13
      then some (peer_at (address 3) 100)
      else none;
}

abbrev is_old : PeerInfo → Bool
is_old p = ltb p.last_connected 80

cells-HoldsPeers : HoldsPeers memory memory.list.head cells
cells-HoldsPeers = (
  refl,
  some 2,
  record { node = refl; peer = refl },
  (
    refl,
    some 3,
    record { node = refl; peer = refl },
    (refl, none, record { node = refl; peer = refl }, refl),
  ),
)

cells-AllApart : AllApart cells
cells-AllApart = (
  (record { node = refl; peer = refl }, (record { node = refl; peer = refl }, tt)),
  ((record { node = refl; peer = refl }, tt), (tt, tt)),
)

expire-remove_expired_example :
    (m' : Memory) × (expire is_old (λ _. true) 4 memory ≡ some (m', ok tt))
    × HoldsPeers m' m'.list.head (unexpired_cells is_old cells)
    × (remove_expired is_old (λ _. true) [] (live_all (peers_of cells)) ≡ (
      live_all (peers_of (unexpired_cells is_old cells)),
      ok (peers_of (unexpired_cells is_old cells)),
    ))
    × AreFreed m' (expired_cells is_old cells)
expire-remove_expired_example =
    expire-remove_expired is_old (λ _. true) (λ _. refl) memory cells cells-HoldsPeers
      cells-AllApart

-- The names of the second peer are not found.
abbrev is_named : PeerInfo → Bool
is_named p = ltb 80 p.last_connected

expire_unnamed_example :
    (m' : Memory) × (expire is_old is_named 4 memory ≡ some (m', err failure_network_function))
    × HoldsPeers m' m'.list.head (unexpired_cells is_old (cell 1 100 ∷ []) ++ cell 3 100 ∷ [])
    × (next : Pointer ℕ) × IsAt m' (cell 2 50) next
expire_unnamed_example =
    expire_unnamed is_old is_named memory (cell 1 100 ∷ []) (cell 2 50) (cell 3 100 ∷ []) (refl, tt)
      refl refl cells-HoldsPeers cells-AllApart
