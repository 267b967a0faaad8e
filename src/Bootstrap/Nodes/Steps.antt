-- ===== src/Bootstrap/Nodes/Steps.antt =====
-- The rounds of the loop over the nodes, one by one.
use leocoin.Prelude.{
  ℕ, suc, ◌≡◌, refl, ap, ◌∙◌, Bool, true, false, some, Option, List, [], ◌∷◌, ==-refl, Bool-cases,
  ◌==◌, inl, inr,
}
use leocoin.Result.{Result, ok, Pointer}
use leocoin.PeerDiscovery.{PeerInfo}
use leocoin.LinkedList.{Node}
use leocoin.Bootstrap.Nodes.{
  Memory, node_and_peer, unlink, free_both, advance, take_off, expire_node, expire_loop,
}
use leocoin.Bootstrap.Nodes.Shape.{
  PeerCell, IsAt, HoldsPeers, LeadsTo, IsFreshIn, AllApart, ApartFrom, ApartFrom-head, AreApart-sym,
  IsFreed, set_head, set_node, HoldsPeers-set_head, HoldsPeers-set_node, LeadsTo-set_node,
}

-- What `unlink` keeps.
pub record Unlinked (m m' : Memory) (kept : List PeerCell) : Type 0 where
  pub peers : m'.peers ≡ m.peers
  pub nodes : (y : PeerCell) → IsFreshIn kept y → m'.list.nodes y.at_node ≡ m.list.nodes y.at_node

pub Unlinked-IsFreed :
    (m m' : Memory) (kept : List PeerCell) (y : PeerCell)
    → Unlinked m m' kept
    → IsFreshIn kept y
    → IsFreed m y
    → IsFreed m' y
Unlinked-IsFreed m m' kept y u fresh f = record {
  node = u.nodes y fresh ∙ f.node;
  peer = ap (λ (peers : ℕ → Option PeerInfo). peers y.at_peer) u.peers ∙ f.peer;
}

pub unlink_lem :
    (m : Memory) (prev p next q : Pointer ℕ) (kept xs : List PeerCell)
    → LeadsTo m prev kept p
    → AllApart kept
    → ApartFrom kept xs
    → HoldsPeers m q xs
    → (m' : Memory) × (unlink m prev next ≡ ok m')
      × LeadsTo m' prev kept next
      × HoldsPeers m' q xs
      × Unlinked m m' kept
unfolding unlink
unlink_lem m prev p next q [] xs (e, _) apart from h = (
  set_head m next,
  rw e refl,
  (e, refl),
  HoldsPeers-set_head m next q xs h,
  record { peers = refl; nodes = λ y _. refl },
)
unlink_lem m prev p next q (x ∷ kept) xs (e, at', before, l) (fresh, apart) from h =
    let n : Node = record { data' = x.at_peer; next = next } in
    (
      set_node m x.at_node n,
      rw (e, at'.node) refl,
      (
        e,
        record { node = rw (==-refl x.at_node) refl; peer = at'.peer },
        before,
        LeadsTo-set_node m x n before (some x.at_node) kept fresh l,
      ),
      HoldsPeers-set_node m x n q xs (ApartFrom-head x kept xs from) h,
      record { peers = refl; nodes = λ y f. rw (AreApart-sym y x f.0).node refl },
    )

advance_lem :
    (m : Memory) (prev p : Pointer ℕ) (kept : List PeerCell)
    → LeadsTo m prev kept p
    → advance m prev prev ≡ ok (prev, p)
unfolding advance
advance_lem m prev p [] (e, h) = rw (e, h) refl
advance_lem m prev p (x ∷ kept) (e, at', _, _) = rw (e, at'.node) refl

-- A cell that is freed, and one that was freed before.
pub free_both-IsFreed : (m : Memory) (x : PeerCell) → IsFreed (free_both m x.at_node x.at_peer) x
free_both-IsFreed m x = record {
  node = rw (==-refl x.at_node) refl;
  peer = rw (==-refl x.at_peer) refl;
}

pub free_both-IsFreed_before :
    (m : Memory) (x y : PeerCell) → IsFreed m y → IsFreed (free_both m x.at_node x.at_peer) y
free_both-IsFreed_before m x y f = record {
  node = elim (Bool-cases (y.at_node == x.at_node)) [ inl e ↦ rw e refl | inr e ↦ rw e f.node ];
  peer = elim (Bool-cases (y.at_peer == x.at_peer)) [ inl e ↦ rw e refl | inr e ↦ rw e f.peer ];
}

pub node_and_peer_lem :
    (m : Memory) (x : PeerCell) (next : Pointer ℕ)
    → IsAt m x next
    → node_and_peer m x.at_node ≡ ok (record { data' = x.at_peer; next = next }, x.peer)
unfolding node_and_peer
node_and_peer_lem m x next at' = rw (at'.node, at'.peer) refl

module _ (expired removed : PeerInfo → Bool) where
  -- A round on a node whose peer has not expired.
  pub expire_node-kept :
      (m : Memory) (prev next : Pointer ℕ) (x : PeerCell)
      → IsAt m x next
      → expired x.peer ≡ false
      → expire_node expired removed m prev x.at_node ≡ (m, ok (some x.at_node, next))
  unfolding expire_node advance
  expire_node-kept m prev next x at' e =
      rw (expire_node, node_and_peer_lem m x next at', e) (rw (advance, at'.node) refl)

  pub expire_node-expired :
      (m m' : Memory) (prev next : Pointer ℕ) (x : PeerCell) (kept : List PeerCell)
      → IsAt m x next
      → expired x.peer ≡ true
      → removed x.peer ≡ true
      → unlink m prev next ≡ ok m'
      → LeadsTo (free_both m' x.at_node x.at_peer) prev kept next
      → expire_node expired removed m prev x.at_node
        ≡ (free_both m' x.at_node x.at_peer, ok (prev, next))
  unfolding expire_node take_off
  expire_node-expired m m' prev next x kept at' e r u l =
      let go_on = advance_lem (free_both m' x.at_node x.at_peer) prev next kept l in
      rw (expire_node, node_and_peer_lem m x next at', e) (rw (take_off, u, r, go_on) refl)

  pub expire_loop-step :
      (rounds : ℕ) (m m' : Memory) (prev prev' p' : Pointer ℕ) (a : ℕ)
      → expire_node expired removed m prev a ≡ (m', ok (prev', p'))
      → expire_loop expired removed (suc rounds) m prev (some a)
        ≡ expire_loop expired removed rounds m' prev' p'
  unfolding expire_loop
  expire_loop-step rounds m m' prev prev' p' a e =
      rw
        (
          expire_loop,
          ap (λ (r : Memory × Result (Pointer ℕ × Pointer ℕ)). r.1) e,
          ap (λ (r : Memory × Result (Pointer ℕ × Pointer ℕ)). r.0) e,
        )
        refl
