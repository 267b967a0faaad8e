-- ===== src/LinkedList/Shape.antt =====
-- The nodes from a pointer to the end of a list, and what keeps them.
use leocoin.Prelude.{
  ℕ, ◌≡◌, false, Option, none, some, List, [], ◌∷◌, ◌==◌, ==_iff, Bool-cases, inl, inr,
}
use leocoin.Result.{Pointer}
use leocoin.LinkedList.{Node, Nodes, LinkedList, put}

-- An address and the data in its node.
abbrev pub Cell : Type 0
Cell = ℕ × ℕ

-- From the pointer `p` on there are nodes at these addresses with these data, the last without a next.
abbrev pub Holds : Nodes → Pointer ℕ → List Cell → Type 0
Holds nodes p [] = p ≡ none
Holds nodes p (cell ∷ cells) =
    (p ≡ some cell.0)
    × (next : Pointer ℕ) × (nodes cell.0 ≡ some (record { data' = cell.1; next = next }))
    × Holds nodes next cells

-- An address that no cell has, and cells with different addresses.
abbrev pub IsFresh : ℕ → List Cell → Type 0
IsFresh a [] = Unit
IsFresh a (cell ∷ cells) = ((cell.0 == a) ≡ false) × IsFresh a cells

abbrev pub Apart : List Cell → Type 0
Apart [] = Unit
Apart (cell ∷ cells) = IsFresh cell.0 cells × Apart cells

abbrev pub contents : List Cell → List ℕ
contents [] = []
contents (cell ∷ cells) = cell.1 ∷ contents cells

-- The list has these data, in nodes with different addresses.
pub record Represents (l : LinkedList) (ds : List ℕ) : Type 0 where
  pub cells : List Cell
  pub holds : Holds l.nodes l.head cells
  pub apart : Apart cells
  pub data' : contents cells ≡ ds

-- A change at another address keeps the nodes.
pub Holds-put :
    (nodes : Nodes) (a : ℕ) (v : Option Node) (p : Pointer ℕ) (cells : List Cell)
    → IsFresh a cells
    → Holds nodes p cells
    → Holds (put nodes a v) p cells
Holds-put nodes a v p [] f h = h
Holds-put nodes a v p ((b, d) ∷ cells) (f, fs) (e, next, at, h) =
    (e, next, rw f at, Holds-put nodes a v next cells fs h)

-- An address with no node is fresh.
pub unused-IsFresh :
    (nodes : Nodes) (a : ℕ) (p : Pointer ℕ) (cells : List Cell)
    → nodes a ≡ none
    → Holds nodes p cells
    → IsFresh a cells
unused-IsFresh nodes a p [] e h = tt
unused-IsFresh nodes a p ((b, d) ∷ cells) e (_, next, at, h) = elim (Bool-cases (b == a)) [
  | inl same ↦ let b≡a : b ≡ a = (==_iff b a).0 same in absurd (cc (at, e, b≡a))
  | inr other ↦ (other, unused-IsFresh nodes a next cells e h)
]
