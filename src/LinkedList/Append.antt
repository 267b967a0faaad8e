-- ===== src/LinkedList/Append.antt =====
-- `linked_list_append` puts the data behind the others.
use leocoin.Prelude.{
  ℕ, suc, ◌≡◌, refl, sym, ap, ◌∙◌, false, Option, none, some, List, [], ◌∷◌, ◌++◌, ◌==◌, ==-flip,
  ==-refl, length,
}
use leocoin.Result.{ok, Pointer}
use leocoin.LinkedList.{
  Node, Nodes, LinkedList, put, linked_list_prepend, walk_last, linked_list_get_last,
  linked_list_append,
}
use leocoin.LinkedList.Shape.{Cell, Holds, IsFresh, Apart, contents, Represents, unused-IsFresh}
use leocoin.LinkedList.Refines.{length-contents}

abbrev set : ℕ → Pointer ℕ → Option Node
set d next = some (record { data' = d; next = next })

-- The last of some nodes, and the nodes with a new one behind it.
record IsLinked (nodes : Nodes) (new d : ℕ) (cells : List Cell) (p : ℕ) (last : ℕ) (n : Node)
    : Type 0 where
  walk : walk_last (length cells) nodes p ≡ some (ok last)
  at_last : nodes last ≡ some n
  among : (c : ℕ) → IsFresh c cells → (last == c) ≡ false
  linked :
      Holds
        (put (put nodes new (set d none)) last (some (record n { next = some new })))
        (some p)
        (cells ++ (new, d) ∷ [])

walk_last-step :
    (nodes : Nodes) (a d' b : ℕ) (next : Pointer ℕ) (k : ℕ)
    → nodes a ≡ set d' next
    → next ≡ some b
    → walk_last (suc k) nodes a ≡ walk_last k nodes b
unfolding walk_last
walk_last-step nodes a d' b next k at e = rw (walk_last, at, e)

link_lem :
    (nodes : Nodes) (new d : ℕ)
    → nodes new ≡ none
    → (a d' : ℕ) (cells : List Cell) → Holds nodes (some a) ((a, d') ∷ cells)
    → Apart ((a, d') ∷ cells)
    → (last : ℕ) × (n : Node) × IsLinked nodes new d ((a, d') ∷ cells) a last n
link_lem nodes new d free a d' [] (_, next, at, end) apart =
    let (other, _) = unused-IsFresh nodes new (some a) ((a, d') ∷ []) free (refl, next, at, end) in
    (
      a,
      record { data' = d'; next = next },
      record {
        walk = unfold walk_last in rw (at, end);
        at_last = at;
        among = λ c f. f.0;
        linked = (
          refl,
          some new,
          rw (==-refl a),
          (refl, none, rw (==-flip a new other, ==-refl new), refl),
        );
      },
    )
link_lem nodes new d free a d' ((b, db) ∷ rest) (_, next, at, (e, next', at', h)) (f, apart) =
    let (other, _) =
      unused-IsFresh nodes new (some a) ((a, d') ∷ (b, db) ∷ rest) free
        (refl, next, at, (e, next', at', h)) in
    let (last, n, ih) = link_lem nodes new d free b db rest (refl, next', at', h) apart in
    (
      last,
      n,
      record {
        walk = walk_last-step nodes a d' b next (length ((b, db) ∷ rest)) at e ∙ ih.walk;
        at_last = ih.at_last;
        among = λ c g. ih.among c g.1;
        linked = (
          refl,
          some b,
          rw (==-flip last a (ih.among a f), other) (at ∙ ap (λ (x : Pointer ℕ). set d' x) e),
          ih.linked,
        );
      },
    )

contents-append :
    (cells : List Cell) (a d : ℕ) → contents (cells ++ (a, d) ∷ []) ≡ contents cells ++ d ∷ []
contents-append [] a d = refl
contents-append (cell ∷ cells) a d = ap (λ (xs : List ℕ). cell.1 ∷ xs) (contents-append cells a d)

IsFresh-append :
    (c a d : ℕ) (cells : List Cell)
    → IsFresh c cells
    → (a == c) ≡ false
    → IsFresh c (cells ++ (a, d) ∷ [])
IsFresh-append c a d [] f e = (e, tt)
IsFresh-append c a d (cell ∷ cells) (f, fs) e = (f, IsFresh-append c a d cells fs e)

Apart-append :
    (a d : ℕ) (cells : List Cell) → Apart cells → IsFresh a cells → Apart (cells ++ (a, d) ∷ [])
Apart-append a d [] h f = (tt, tt)
Apart-append a d (cell ∷ cells) (h, hs) (f, fs) =
    (IsFresh-append cell.0 a d cells h (==-flip cell.0 a f), Apart-append a d cells hs fs)

-- On a list that has these data in nodes with different addresses, `linked_list_append` puts the new
-- data behind them, in the node that `malloc` returns, at an address that was not in use; its loop
-- takes as many rounds as there are data.
pub linked_list_append-Represents :
    (a : ℕ) (l : LinkedList) (d : ℕ) (ds : List ℕ)
    → Represents l ds
    → l.nodes a ≡ none
    → (l' : LinkedList) × (linked_list_append (length ds) (some a) (some l) (some d) ≡ some (ok l'))
      × Represents l' (ds ++ d ∷ [])
linked_list_append-Represents a l d ds r free = by_cells r.cells r.holds r.apart r.data'
  where
    by_cells :
        (cells : List Cell)
        → Holds l.nodes l.head cells
        → Apart cells
        → contents cells ≡ ds
        → (l' : LinkedList) × (linked_list_append (length ds) (some a) (some l) (some d)
            ≡ some (ok l'))
          × Represents l' (ds ++ d ∷ [])
    by_cells [] h apart e = (
      record { head = some a; nodes = put l.nodes a (set d l.head) },
      unfold linked_list_append linked_list_prepend in rw h,
      record {
        cells = (a, d) ∷ [];
        holds = (refl, l.head, rw (==-refl a), h);
        apart = (tt, tt);
        data' = rw⁻¹ e refl;
      },
    )
    by_cells ((b, db) ∷ cells) (p, next, at, h) apart e =
        let whole : Holds l.nodes (some b) ((b, db) ∷ cells) = (refl, next, at, h) in
        let (last, n, linked) = link_lem l.nodes a d free b db cells whole apart in
        let size : length ds ≡ suc (length cells) =
          ap length (sym e) ∙ ap suc (length-contents cells) in
        let fresh = unused-IsFresh l.nodes a (some b) ((b, db) ∷ cells) free whole in
        (
          record {
            head = l.head;
            nodes = put (put l.nodes a (set d none)) last (some (record n { next = some a }));
          },
          unfold linked_list_append linked_list_get_last in
              rw (p, size, linked.walk, linked.at_last),
          record {
            cells = (b, db) ∷ (cells ++ (a, d) ∷ []);
            holds = rw p linked.linked;
            apart = Apart-append a d ((b, db) ∷ cells) apart fresh;
            data' = contents-append ((b, db) ∷ cells) a d ∙ ap (λ (xs : List ℕ). xs ++ d ∷ []) e;
          },
        )
