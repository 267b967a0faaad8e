-- ===== src/Bootstrap/Nodes/Shape.antt =====
-- A list of peers in memory, seen from one of its nodes: the nodes before it and those from it on.
use mathlib.Core.List.{reverse_aux}
use leocoin.Prelude.{ℕ, ◌≡◌, refl, sym, false, none, some, List, [], ◌∷◌, ◌==◌, ==-flip}
use leocoin.Result.{Pointer}
use leocoin.PeerDiscovery.{PeerInfo}
use leocoin.LinkedList.{Node, put}
use leocoin.Bootstrap.Nodes.{Memory, free_both}

-- A node, the address of its peer, and the peer.
pub record PeerCell : Type 0 where
  pub at_node : ℕ
  pub at_peer : ℕ
  pub peer : PeerInfo

abbrev pub peers_of : List PeerCell → List PeerInfo
peers_of [] = []
peers_of (x ∷ xs) = x.peer ∷ peers_of xs

-- The node and the peer of a cell are in memory.
pub record IsAt (m : Memory) (x : PeerCell) (next : Pointer ℕ) : Type 0 where
  pub node : m.list.nodes x.at_node ≡ some (record { data' = x.at_peer; next = next })
  pub peer : m.peers x.at_peer ≡ some x.peer

-- From the pointer on there are these cells.
abbrev pub HoldsPeers : Memory → Pointer ℕ → List PeerCell → Type 0
HoldsPeers m p [] = p ≡ none
HoldsPeers m p (x ∷ xs) =
    (p ≡ some x.at_node) × (next : Pointer ℕ) × IsAt m x next × HoldsPeers m next xs

-- The cells from the head of the list to `prev`, the last one first; `node` is behind it.
abbrev pub LeadsTo : Memory → (prev : Pointer ℕ) → List PeerCell → (node : Pointer ℕ) → Type 0
LeadsTo m prev [] node = (prev ≡ none) × (m.list.head ≡ node)
LeadsTo m prev (x ∷ kept) node =
    (prev ≡ some x.at_node)
    × IsAt m x node
    × (before : Pointer ℕ) × LeadsTo m before kept (some x.at_node)

-- Different nodes with different peers.
pub record AreApart (x y : PeerCell) : Type 0 where
  pub node : (y.at_node == x.at_node) ≡ false
  pub peer : (y.at_peer == x.at_peer) ≡ false

abbrev pub IsFreshIn : List PeerCell → PeerCell → Type 0
IsFreshIn [] x = Unit
IsFreshIn (y ∷ ys) x = AreApart x y × IsFreshIn ys x

abbrev pub AllApart : List PeerCell → Type 0
AllApart [] = Unit
AllApart (x ∷ xs) = IsFreshIn xs x × AllApart xs

-- Each of the cells is apart from all of the others.
abbrev pub ApartFrom : (kept : List PeerCell) → List PeerCell → Type 0
ApartFrom kept [] = Unit
ApartFrom kept (x ∷ xs) = IsFreshIn kept x × ApartFrom kept xs

pub AreApart-sym : (x y : PeerCell) → AreApart x y → AreApart y x
AreApart-sym x y a = record {
  node = ==-flip y.at_node x.at_node a.node;
  peer = ==-flip y.at_peer x.at_peer a.peer;
}

pub ApartFrom-nil : (xs : List PeerCell) → ApartFrom [] xs
ApartFrom-nil [] = tt
ApartFrom-nil (x ∷ xs) = (tt, ApartFrom-nil xs)

pub ApartFrom-cons :
    (x : PeerCell) (kept xs : List PeerCell)
    → IsFreshIn xs x
    → ApartFrom kept xs
    → ApartFrom (x ∷ kept) xs
ApartFrom-cons x kept [] f a = tt
ApartFrom-cons x kept (y ∷ ys) (xy, f) (k, a) =
    ((AreApart-sym x y xy, k), ApartFrom-cons x kept ys f a)

-- The last cell that is kept is apart from those that follow.
pub ApartFrom-head :
    (x : PeerCell) (kept xs : List PeerCell) → ApartFrom (x ∷ kept) xs → IsFreshIn xs x
ApartFrom-head x kept [] a = tt
ApartFrom-head x kept (y ∷ ys) ((yx, _), a) = (AreApart-sym y x yx, ApartFrom-head x kept ys a)

-- What is freed of a cell: its node and its peer.
pub record IsFreed (m : Memory) (x : PeerCell) : Type 0 where
  pub node : m.list.nodes x.at_node ≡ none
  pub peer : m.peers x.at_peer ≡ none

abbrev pub AreFreed : Memory → List PeerCell → Type 0
AreFreed m [] = Unit
AreFreed m (x ∷ xs) = IsFreed m x × AreFreed m xs

-- The head changed.
abbrev pub set_head : Memory → Pointer ℕ → Memory
set_head m p = record m { list = record (m.list) { head = p } }

pub HoldsPeers-set_head :
    (m : Memory) (q p : Pointer ℕ) (xs : List PeerCell)
    → HoldsPeers m p xs
    → HoldsPeers (set_head m q) p xs
HoldsPeers-set_head m q p [] h = h
HoldsPeers-set_head m q p (x ∷ xs) (e, next, at', h) =
    (e, next, record { node = at'.node; peer = at'.peer }, HoldsPeers-set_head m q next xs h)

-- The nodes changed at one address.
abbrev pub set_node : Memory → ℕ → Node → Memory
set_node m a n = record m { list = record (m.list) { nodes = put m.list.nodes a (some n) } }

-- Changes at a cell keep the others.
pub HoldsPeers-set_node :
    (m : Memory) (y : PeerCell) (n : Node) (p : Pointer ℕ) (xs : List PeerCell)
    → IsFreshIn xs y
    → HoldsPeers m p xs
    → HoldsPeers (set_node m y.at_node n) p xs
HoldsPeers-set_node m y n p [] f h = h
HoldsPeers-set_node m y n p (x ∷ xs) (a, f) (e, next, at', h) = (
  e,
  next,
  record { node = rw a.node at'.node; peer = at'.peer },
  HoldsPeers-set_node m y n next xs f h,
)

pub HoldsPeers-free_both :
    (m : Memory) (y : PeerCell) (p : Pointer ℕ) (xs : List PeerCell)
    → IsFreshIn xs y
    → HoldsPeers m p xs
    → HoldsPeers (free_both m y.at_node y.at_peer) p xs
HoldsPeers-free_both m y p [] f h = h
HoldsPeers-free_both m y p (x ∷ xs) (a, f) (e, next, at', h) = (
  e,
  next,
  record { node = rw a.node at'.node; peer = rw a.peer at'.peer },
  HoldsPeers-free_both m y next xs f h,
)

pub LeadsTo-set_node :
    (m : Memory) (y : PeerCell) (n : Node) (prev p : Pointer ℕ) (kept : List PeerCell)
    → IsFreshIn kept y
    → LeadsTo m prev kept p
    → LeadsTo (set_node m y.at_node n) prev kept p
LeadsTo-set_node m y n prev p [] f h = h
LeadsTo-set_node m y n prev p (x ∷ kept) (a, f) (e, at', before, h) = (
  e,
  record { node = rw a.node at'.node; peer = at'.peer },
  before,
  LeadsTo-set_node m y n before (some x.at_node) kept f h,
)

pub LeadsTo-free_both :
    (m : Memory) (y : PeerCell) (prev p : Pointer ℕ) (kept : List PeerCell)
    → IsFreshIn kept y
    → LeadsTo m prev kept p
    → LeadsTo (free_both m y.at_node y.at_peer) prev kept p
LeadsTo-free_both m y prev p [] f h = h
LeadsTo-free_both m y prev p (x ∷ kept) (a, f) (e, at', before, h) = (
  e,
  record { node = rw a.node at'.node; peer = rw a.peer at'.peer },
  before,
  LeadsTo-free_both m y before (some x.at_node) kept f h,
)

-- The whole list.
pub HoldsPeers-reverse_aux :
    (m : Memory) (prev p : Pointer ℕ) (kept xs : List PeerCell)
    → LeadsTo m prev kept p
    → HoldsPeers m p xs
    → HoldsPeers m m.list.head (reverse_aux kept xs)
HoldsPeers-reverse_aux m prev p [] xs (_, e) h = rw (sym e) at h
HoldsPeers-reverse_aux m prev p (x ∷ kept) xs (e, at', before, l) h =
    HoldsPeers-reverse_aux m before (some x.at_node) kept (x ∷ xs) l (refl, p, at', h)
