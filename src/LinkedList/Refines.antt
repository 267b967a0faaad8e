-- ===== src/LinkedList/Refines.antt =====
-- The functions of src/linked_list.c do to the data of a list what their names say.
use leocoin.Prelude.{
  ℕ, suc, ◌+◌, ◌%◌, ◌^◌, ◌<◌, ◌≡◌, refl, sym, ap, ◌∙◌, none, some, List, [], ◌∷◌, ==-refl, arith,
  length,
}
use leocoin.Result.{ok, err, given, Pointer, failure_linked_list_empty}
use leocoin.LinkedList.{
  Node, Nodes, LinkedList, put, linked_list_prepend, linked_list_get_first,
  linked_list_remove_first, walk_length, linked_list_length,
}
use leocoin.LinkedList.Shape.{Cell, Holds, Apart, contents, Represents, Holds-put, unused-IsFresh}

-- On a list that has these data in nodes with different addresses, `linked_list_prepend` puts the
-- new data before them, in the node that `malloc` returns, at an address that was not in use.
pub linked_list_prepend-Represents :
    (a : ℕ) (l : LinkedList) (d : ℕ) (ds : List ℕ)
    → Represents l ds
    → l.nodes a ≡ none
    → (l' : LinkedList) × (linked_list_prepend (some a) (some l) (some d) ≡ ok l')
      × Represents l' (d ∷ ds)
unfolding linked_list_prepend
linked_list_prepend-Represents a l d ds r free =
    let fresh = unused-IsFresh l.nodes a l.head r.cells free r.holds in
    (
      record { head = some a; nodes = put l.nodes a (some (record { data' = d; next = l.head })) },
      refl,
      record {
        cells = (a, d) ∷ r.cells;
        holds = (refl, l.head, rw (==-refl a), Holds-put l.nodes a _ l.head r.cells fresh r.holds);
        apart = (fresh, r.apart);
        data' = ap (λ (xs : List ℕ). d ∷ xs) r.data';
      },
    )

-- `linked_list_remove_first` takes the first data of a list away and frees its node, and leaves the
-- other data; on an empty list it returns the code for that.
pub linked_list_remove_first-Represents :
    (l : LinkedList)
    → (Represents l [] → linked_list_remove_first (some l) ≡ err failure_linked_list_empty)
      × ((d : ℕ) (ds : List ℕ)
          → Represents l (d ∷ ds)
          → (l' : LinkedList) × (first : ℕ) × (l.head ≡ some first)
            × (linked_list_remove_first (some l) ≡ ok l')
            × Represents l' ds
            × (l'.nodes first ≡ none))
unfolding linked_list_remove_first linked_list_get_first
linked_list_remove_first-Represents l = (empty, λ d ds r. full d ds r.cells r.holds r.apart r.data')
  where
    empty : Represents l [] → linked_list_remove_first (some l) ≡ err failure_linked_list_empty
    empty r = none_left r.cells r.holds r.data'
      where
        none_left :
            (cells : List Cell)
            → Holds l.nodes l.head cells
            → contents cells ≡ []
            → linked_list_remove_first (some l) ≡ err failure_linked_list_empty
        none_left [] h e = rw h
        none_left (cell ∷ cells) h e = absurd cc

    full :
        (d : ℕ) (ds : List ℕ) (cells : List Cell)
        → Holds l.nodes l.head cells
        → Apart cells
        → contents cells ≡ d ∷ ds
        → (l' : LinkedList) × (first : ℕ) × (l.head ≡ some first)
          × (linked_list_remove_first (some l) ≡ ok l')
          × Represents l' ds
          × (l'.nodes first ≡ none)
    full d ds [] h ap' e = absurd cc
    full d ds ((a, d') ∷ cells) (p, next, at, h) (fresh, apart) e =
        let rest : contents cells ≡ ds = cc in
        (
          record { head = next; nodes = put l.nodes a none },
          a,
          p,
          rw (p, at),
          record {
            cells = cells;
            holds = Holds-put l.nodes a none next cells fresh h;
            apart = apart;
            data' = rest;
          },
          rw (==-refl a),
        )

walk_length-step :
    (nodes : Nodes) (a : ℕ) (node : Node) (k n : ℕ)
    → nodes a ≡ some node
    → walk_length (suc k) nodes (some a) n ≡ walk_length k nodes node.next ((n + 1) % 2 ^ 64)
unfolding walk_length
walk_length-step nodes a node k n at = rw (walk_length, at)

walk_length_lem :
    (nodes : Nodes) (p : Pointer ℕ) (cells : List Cell) (n : ℕ)
    → Holds nodes p cells
    → n + length cells < 2 ^ 64
    → walk_length (suc (length cells)) nodes p n ≡ some (ok (n + length cells))
unfolding walk_length
walk_length_lem nodes p [] n h small =
    let e : n ≡ n + 0 = omega arith in rw h (ap (λ (k : ℕ). some (ok k)) e)
walk_length_lem nodes p ((a, d) ∷ cells) n (e, next, at, h) small =
    let step : (n + 1) % 2 ^ 64 ≡ n + 1 = omega arith in
    let sum : n + 1 + length cells ≡ n + suc (length cells) = omega arith in
    rw e (
      walk_length-step nodes a (record { data' = d; next = next }) (suc (length cells)) n at
      ∙ ap (walk_length (suc (length cells)) nodes next) step
      ∙ walk_length_lem nodes next cells (n + 1) h (omega arith)
      ∙ ap (λ (k : ℕ). some (ok k)) sum)

pub length-contents : (cells : List Cell) → length (contents cells) ≡ length cells
length-contents [] = refl
length-contents (cell ∷ cells) = ap suc (length-contents cells)

-- `linked_list_length` counts the data, in one round more than there are data, where the number fits
-- 64 bits.
pub linked_list_length-Represents :
    (l : LinkedList) (ds : List ℕ)
    → Represents l ds
    → length ds < 2 ^ 64
    → linked_list_length (suc (length ds)) (some l) given ≡ some (ok (length ds))
unfolding linked_list_length
linked_list_length-Represents l ds r small =
    let same : length r.cells ≡ length ds = sym (length-contents r.cells) ∙ ap length r.data' in
    let sum : 0 + length ds ≡ length ds = omega arith in
    rw same at (walk_length_lem l.nodes l.head r.cells 0 r.holds (omega arith))
    ∙ ap (λ (k : ℕ). some (ok k)) sum
