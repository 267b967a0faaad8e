-- ===== src/LinkedList/Search.antt =====
-- `linked_list_find` finds the first match, and `linked_list_destroy` frees every node.
use leocoin.Prelude.{
  ==-flip, ℕ, suc, ◌≡◌, refl, sym, ap, ◌∙◌, Bool, none, some, List, [], ◌∷◌, ==-refl, length,
  if◌then◌else◌, All, Bool-cases, inl, inr,
}
use leocoin.Result.{ok, given, Pointer}
use leocoin.LinkedList.{
  Node, Nodes, LinkedList, put, walk_find, linked_list_find, find_arguments, linked_list_get_first,
  linked_list_remove_first, destroy_loop, linked_list_destroy,
}
use leocoin.LinkedList.Shape.{Cell, Holds, IsFresh, Apart, Represents, Holds-put}
use leocoin.LinkedList.Refines.{length-contents}

-- The address of the first cell whose data pass a test.
abbrev pub first_match : (ℕ → Bool) → List Cell → Pointer ℕ
first_match test [] = none
first_match test (cell ∷ cells) =
    let rest = first_match test cells in if test cell.1 then some cell.0 else rest

walk_find-step :
    (k : ℕ) (f : ℕ → ℕ → Bool) (d : ℕ) (nodes : Nodes) (a : ℕ) (node : Node) (r : Pointer ℕ)
    → nodes a ≡ some node
    → walk_find k f d nodes node.next ≡ some (ok r)
    → walk_find (suc k) f d nodes (some a) ≡ some (ok (if f d node.data' then some a else r))
unfolding walk_find
walk_find-step k f d nodes a node r at rest = elim (Bool-cases (f d node.data')) [
  | inl hit ↦ rw (walk_find, at, hit)
  | inr miss ↦ rw (walk_find, at, miss) rest
]

walk_find_lem :
    (f : ℕ → ℕ → Bool) (d : ℕ) (nodes : Nodes) (p : Pointer ℕ) (cells : List Cell)
    → Holds nodes p cells
    → walk_find (suc (length cells)) f d nodes p ≡ some (ok (first_match (f d) cells))
walk_find_lem f d nodes p [] h = rw h (unfold walk_find in refl)
walk_find_lem f d nodes p ((a, x) ∷ cells) (e, next, at, h) = rw e (
    walk_find-step (suc (length cells)) f d nodes a (record { data' = x; next = next }) _ at
      (walk_find_lem f d nodes next cells h))

-- `linked_list_find` finds the node of the first data that the compare function tells equal to the
-- given ones, and sets nothing where there are none, in one round more than there are data.
pub linked_list_find-first_match :
    (f : ℕ → ℕ → Bool) (l : LinkedList) (d : ℕ) (ds : List ℕ) (r : Represents l ds)
    → linked_list_find (suc (length ds)) (some f) (some l) (some d) given
      ≡ some (ok (first_match (f d) r.cells))
unfolding linked_list_find find_arguments
linked_list_find-first_match f l d ds r =
    let same : length r.cells ≡ length ds = sym (length-contents r.cells) ∙ ap length r.data' in
    rw same at (walk_find_lem f d l.nodes l.head r.cells r.holds)

-- What is left of the nodes: those of the list are freed, the others are as they were.
pub record IsFreed (before after : Nodes) (cells : List Cell) : Type 0 where
  pub freed : All (λ (cell : Cell). after cell.0 ≡ none) cells
  pub others : (b : ℕ) → IsFresh b cells → after b ≡ before b

remove_first_lem :
    (l : LinkedList) (a d : ℕ) (next : Pointer ℕ)
    → l.head ≡ some a
    → l.nodes a ≡ some (record { data' = d; next = next })
    → linked_list_remove_first (some l) ≡ ok (record { head = next; nodes = put l.nodes a none })
unfolding linked_list_remove_first linked_list_get_first
remove_first_lem l a d next p at = rw (p, at)

destroy_loop-step :
    (k : ℕ) (l : LinkedList) (a d : ℕ) (next : Pointer ℕ)
    → l.head ≡ some a
    → l.nodes a ≡ some (record { data' = d; next = next })
    → destroy_loop (suc k) l ≡ destroy_loop k (record { head = next; nodes = put l.nodes a none })
unfolding destroy_loop
destroy_loop-step k l a d next p at = rw (destroy_loop, p, remove_first_lem l a d next p at)

destroy_loop_lem :
    (l : LinkedList) (cells : List Cell)
    → Holds l.nodes l.head cells
    → Apart cells
    → (l' : LinkedList) × (destroy_loop (suc (length cells)) l ≡ some (ok l'))
      × IsFreed l.nodes l'.nodes cells
destroy_loop_lem l [] h apart =
    (l, unfold destroy_loop in rw h, record { freed = tt; others = λ b f. refl })
destroy_loop_lem l ((a, d) ∷ cells) (p, next, at, h) (fresh, apart) =
    let rest : LinkedList = record { head = next; nodes = put l.nodes a none } in
    let (l', done, ih) =
      destroy_loop_lem rest cells (Holds-put l.nodes a none next cells fresh h) apart in
    (
      l',
      destroy_loop-step (suc (length cells)) l a d next p at ∙ done,
      record {
        freed = (ih.others a fresh ∙ rw (==-refl a), ih.freed);
        others = λ b f. ih.others b f.1 ∙ rw (==-flip a b f.0);
      },
    )

-- `linked_list_destroy` frees every node of a list and changes no other node, in one round more than
-- there are data.
pub linked_list_destroy-IsFreed :
    (l : LinkedList) (ds : List ℕ) (r : Represents l ds)
    → (l' : LinkedList) × (linked_list_destroy (suc (length ds)) (some l) ≡ some (ok l'))
      × IsFreed l.nodes l'.nodes r.cells
unfolding linked_list_destroy
linked_list_destroy-IsFreed l ds r =
    let same : length r.cells ≡ length ds = sym (length-contents r.cells) ∙ ap length r.data' in
    rw same at (destroy_loop_lem l r.cells r.holds r.apart)
