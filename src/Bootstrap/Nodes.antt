-- ===== src/Bootstrap/Nodes.antt =====
-- The loop of `handle_one_peer_discovery_request` in src/peer_discovery_bootstrap_server_thread.c that
-- takes expired peers off the list, on the nodes in memory.
pub mod Shape
pub mod Steps
pub mod Reaches
pub mod Refines
pub mod Unnamed
use leocoin.Prelude.{ℕ, zero, suc, Bool, Option, none, some, ◌==◌, if◌then◌else◌}
use leocoin.Result.{Result, ok, err, fault, ◌>>=◌, Pointer, failure_network_function}
use leocoin.PeerDiscovery.{PeerInfo}
use leocoin.LinkedList.{Node, LinkedList, put, load}

-- The list, and the peers that are allocated, by address.
pub record Memory : Type 0 where
  pub list : LinkedList
  pub peers : ℕ → Option PeerInfo

abbrev pub load_peer : Option PeerInfo → Result PeerInfo
load_peer none = fault
load_peer (some p) = ok p

-- The node at an address, and its peer.
unfoldable pub node_and_peer : Memory → ℕ → Result (Node × PeerInfo)
node_and_peer m a = do n ← load (m.list.nodes a); p ← load_peer (m.peers n.data'); ok (n, p)

-- `args->peer_info_list->head = node->next;` or `prev->next = node->next;`
unfoldable pub unlink : Memory → (prev : Pointer ℕ) → (next : Pointer ℕ) → Result Memory
unlink m none next = ok (record m { list = record (m.list) { head = next } })
unlink m (some b) next = do
  n ← load (m.list.nodes b)
  ok (record m {
    list = record (m.list) { nodes = put m.list.nodes b (some (record n { next = next })) };
  })

-- The peer and its node are freed.
abbrev pub free_both : Memory → (node : ℕ) → (data' : ℕ) → Memory
free_both m a d = record m {
  list = record (m.list) { nodes = put m.list.nodes a none };
  peers = λ e. if e == d then none else m.peers e;
}

-- The end of a round, `prev` and `node` for the next one: `node` is `prev` where a node was freed.
unfoldable pub advance : Memory → (prev node : Pointer ℕ) → Result (Pointer ℕ × Pointer ℕ)
advance m prev none = ok (prev, m.list.head)
advance m prev (some b) = do n ← load (m.list.nodes b); ok (some b, n.next)

-- `removed` tells whether the names that are printed of a peer are found, as also where nothing is
-- printed.
module _ (peer_expired : PeerInfo → Bool) (removed : PeerInfo → Bool) where
  -- An expired node.
  unfoldable pub take_off :
      Memory
      → (prev : Pointer ℕ) → (node : ℕ) → Node
      → PeerInfo
      → Memory × Result (Pointer ℕ × Pointer ℕ)
  unfolding unlink advance
  take_off m prev a n p = elim (unlink m prev n.next) [
    | ok m' ↦
        if removed p
        then (free_both m' a n.data', advance (free_both m' a n.data') prev prev)
        else (m', err failure_network_function)
    | err code ↦ (m, err code)
    | fault ↦ (m, fault)
  ]

  unfoldable pub expire_node :
      Memory → (prev : Pointer ℕ) → (node : ℕ) → Memory × Result (Pointer ℕ × Pointer ℕ)
  unfolding node_and_peer take_off advance
  expire_node m prev a = elim (node_and_peer m a) [
    | ok (n, p) ↦ if peer_expired p then take_off m prev a n p else (m, advance m prev (some a))
    | err code ↦ (m, err code)
    | fault ↦ (m, fault)
  ]

  -- `while (NULL != node)`, with the memory as the loop leaves it; `none` where the rounds are used
  -- up.
  unfoldable pub expire_loop :
      (rounds : ℕ) → Memory → (prev node : Pointer ℕ) → Option (Memory × Result (Unit {0}))
  unfolding expire_node
  expire_loop zero m prev _ = none
  expire_loop (suc rounds) m prev none = some (m, ok tt)
  expire_loop (suc rounds) m prev (some a) =
      let (m', next_round) = expire_node m prev a in
      elim next_round [
        | ok (prev', node') ↦ expire_loop rounds m' prev' node'
        | err code ↦ some (m', err code)
        | fault ↦ some (m', fault)
      ]

  unfoldable pub expire : (rounds : ℕ) → Memory → Option (Memory × Result (Unit {0}))
  unfolding expire_loop
  expire rounds m = expire_loop rounds m none m.list.head
