-- ===== src/Bootstrap/Nodes/Reaches.antt =====
-- How far the loop over the nodes has come.
use mathlib.Core.List.{reverse_aux}
use leocoin.Prelude.{
  ℕ, suc, ◌≡◌, refl, ap, ◌∙◌, Bool, true, some, List, [], ◌∷◌, ◌++◌, All, length, Bool-cases, inl,
  inr, if◌then◌else◌,
}
use leocoin.Result.{Pointer}
use leocoin.PeerDiscovery.{PeerInfo}
use leocoin.Bootstrap.Registers.{unexpired}
use leocoin.Bootstrap.Nodes.{Memory, free_both, expire_loop}
use leocoin.Bootstrap.Nodes.Steps.{
  Unlinked-IsFreed, unlink_lem, free_both-IsFreed, free_both-IsFreed_before, expire_node-kept,
  expire_node-expired, expire_loop-step,
}
use leocoin.Bootstrap.Nodes.Shape.{
  PeerCell, peers_of, HoldsPeers, LeadsTo, IsFreshIn, AllApart, ApartFrom, ApartFrom-cons, IsFreed,
  AreFreed, HoldsPeers-free_both, LeadsTo-free_both,
}

-- The cells whose peers have expired, and the others.
module _ (expired : PeerInfo → Bool) where
  unfoldable pub expired_cells : List PeerCell → List PeerCell
  expired_cells [] = []
  expired_cells (x ∷ xs) = let rest = expired_cells xs in if expired x.peer then x ∷ rest else rest

  unfoldable pub unexpired_cells : List PeerCell → List PeerCell
  unexpired_cells [] = []
  unexpired_cells (x ∷ xs) =
      let rest = unexpired_cells xs in if expired x.peer then rest else x ∷ rest

  pub peers_of-unexpired_cells :
      (xs : List PeerCell) → peers_of (unexpired_cells xs) ≡ unexpired expired (peers_of xs)
  unfolding unexpired_cells unexpired
  peers_of-unexpired_cells [] = refl
  peers_of-unexpired_cells (x ∷ xs) = elim (Bool-cases (expired x.peer)) [
    | inl e ↦ rw e (peers_of-unexpired_cells xs)
    | inr e ↦ rw e (ap (λ (ps : List PeerInfo). x.peer ∷ ps) (peers_of-unexpired_cells xs))
  ]

-- The rounds for some cells, and more.
abbrev pub rounds_before : List PeerCell → ℕ → ℕ
rounds_before [] rounds = rounds
rounds_before (x ∷ xs) rounds = suc (rounds_before xs rounds)

pub rounds_before-append :
    (xs ys : List PeerCell) (n : ℕ)
    → n ≡ length ys
    → rounds_before xs (suc n) ≡ suc (length (xs ++ ys))
rounds_before-append [] ys n e = ap suc e
rounds_before-append (x ∷ xs) ys n e = ap suc (rounds_before-append xs ys n e)

module _ (expired removed : PeerInfo → Bool) where
  -- The names of the peers are found.
  abbrev pub AreNamed : List PeerCell → Type 0
  AreNamed xs = All (λ (x : PeerCell). removed x.peer ≡ true) xs

  -- A place in the list: the cells that were passed and are still there, and the rest.
  pub record Place (rest : List PeerCell) : Type 0 where
    pub memory : Memory
    pub prev : Pointer ℕ
    pub next : Pointer ℕ
    pub passed : List PeerCell
    pub leads : LeadsTo memory prev passed next
    pub holds : HoldsPeers memory next rest
    pub apart_passed : AllApart passed
    pub apart_rest : AllApart rest
    pub apart : ApartFrom passed rest

  -- What the loop has done when it stands behind some of the cells.
  pub record Reaches (m : Memory) (kept before rest : List PeerCell) : Type 0 where
    pub place : Place rest
    pub order :
        (ys : List PeerCell)
        → reverse_aux place.passed ys ≡ reverse_aux kept (unexpired_cells expired before ++ ys)
    pub freed : AreFreed place.memory (expired_cells expired before)
    pub freed_before :
        (y : PeerCell)
        → IsFreshIn kept y
        → IsFreshIn (before ++ rest) y
        → IsFreed m y
        → IsFreed place.memory y

  pub expire_loop-Reaches :
      (m : Memory) (prev p : Pointer ℕ) (kept before rest : List PeerCell) (rounds : ℕ)
      → AreNamed before
      → LeadsTo m prev kept p
      → HoldsPeers m p (before ++ rest)
      → AllApart kept
      → AllApart (before ++ rest)
      → ApartFrom kept (before ++ rest)
      → (r : Reaches m kept before rest) × (expire_loop expired removed
            (rounds_before before rounds)
            m
            prev
            p
          ≡ expire_loop expired removed rounds r.place.memory r.place.prev r.place.next)
  unfolding expired_cells unexpired_cells
  expire_loop-Reaches m prev p kept [] rest rounds named l h ak ax from = (
    record {
      place = record {
        memory = m;
        prev = prev;
        next = p;
        passed = kept;
        leads = l;
        holds = h;
        apart_passed = ak;
        apart_rest = ax;
        apart = from;
      };
      order = λ ys. refl;
      freed = tt;
      freed_before = λ y _ _ f. f;
    },
    refl,
  )
  expire_loop-Reaches m prev p kept (x ∷ before) rest rounds (name, named) l (e, next, at', h) ak
        (fx, ax) (fk, from) =
      elim (Bool-cases (expired x.peer)) [
        | inl gone ↦
            let xs = before ++ rest in
            let (m1, unlinked, l1, h1, u) = unlink_lem m prev p next next kept xs l ak from h in
            let m2 = free_both m1 x.at_node x.at_peer in
            let l2 = LeadsTo-free_both m1 x prev next kept fk l1 in
            let h2 = HoldsPeers-free_both m1 x next xs fx h1 in
            let (r, loop) =
              expire_loop-Reaches m2 prev next kept before rest rounds named l2 h2 ak ax from in
            let round =
              expire_node-expired expired removed m m1 prev next x kept at' gone name unlinked l2 in
            (
              record {
                place = r.place;
                order = λ ys. rw gone (r.order ys);
                freed = rw gone (r.freed_before x fk fx (free_both-IsFreed m1 x), r.freed);
                freed_before = λ y yk yx f.
                    r.freed_before y yk yx.1
                      (free_both-IsFreed_before m1 x y (Unlinked-IsFreed m m1 kept y u yk f));
              },
              rw e (
                  expire_loop-step expired removed (rounds_before before rounds) m m2 prev prev next
                    x.at_node round
                  ∙ loop),
            )
        | inr stays ↦
            let (r, loop) =
              expire_loop-Reaches m (some x.at_node) next (x ∷ kept) before rest rounds named
                (refl, at', prev, rw e at l) h (fk, ak) ax
                (ApartFrom-cons x kept (before ++ rest) fx from) in
            (
              record {
                place = r.place;
                order = λ ys. rw stays (r.order ys);
                freed = rw stays r.freed;
                freed_before = λ y yk yx f. r.freed_before y (yx.0, yk) yx.1 f;
              },
              rw e (
                  expire_loop-step expired removed (rounds_before before rounds) m m prev
                    (some x.at_node) next x.at_node
                    (expire_node-kept expired removed m prev next x at' stays)
                  ∙ loop),
            )
      ]
