-- ===== src/LinkedList.antt =====
-- src/linked_list.c on the nodes in memory. The functions that change the list return it as they
-- leave it; a loop has rounds, and is `none` where they are used up.
pub mod Shape
pub mod Create
pub mod Refines
pub mod Append
pub mod Search
use leocoin.Prelude.{
  ℕ, zero, suc, ◌+◌, ◌%◌, ◌^◌, Bool, true, false, Option, none, some, ◌==◌, if◌then◌else◌,
}
use leocoin.Result.{
  Result, ok, err, fault, ◌>>=◌, ◌>>◌, Pointer, Out, given, non_null, writable,
  failure_could_not_malloc, failure_linked_list_empty, failure_linked_list_no_compare_function,
  failure_invalid_input,
}

-- `node_t`; `data` is the address that the list is given.
pub record Node : Type 0 where
  pub data' : ℕ
  pub next : Pointer ℕ

-- The nodes that are allocated, by address.
abbrev pub Nodes : Type 0
Nodes = ℕ → Option Node

-- `linked_list_t`, with the nodes.
pub record LinkedList : Type 0 where
  pub head : Pointer ℕ
  pub nodes : Nodes

-- The nodes with the one at an address set, or freed.
abbrev pub put : Nodes → ℕ → Option Node → Nodes
put nodes a v b = if b == a then v else nodes b

-- Access to a node: a fault where none is allocated.
abbrev pub load : Option Node → Result Node
load none = fault
load (some n) = ok n

-- The answer of `malloc`, which is an address or NULL.
abbrev pub malloced : Pointer ℕ → Result ℕ
malloced none = err failure_could_not_malloc
malloced (some a) = ok a

-- The compare function of a list, which may be NULL.
abbrev pub compares : Pointer (ℕ → ℕ → Bool) → Result (ℕ → ℕ → Bool)
compares none = err failure_linked_list_no_compare_function
compares (some f) = ok f

abbrev pub is_null : Pointer ℕ → Bool
is_null none = true
is_null (some _) = false

unfoldable pub linked_list_is_empty : Pointer LinkedList → Out → Result Bool
linked_list_is_empty linked_list is_empty = do
  l ← non_null linked_list
  writable is_empty
  ok (is_null l.head)

unfoldable pub linked_list_prepend :
    (fresh : Pointer ℕ) → Pointer LinkedList → Pointer ℕ → Result LinkedList
linked_list_prepend fresh linked_list data' = do
  l ← non_null linked_list
  d ← non_null data'
  node ← malloced fresh
  ok (record {
    head = some node;
    nodes = put l.nodes node (some (record { data' = d; next = l.head }));
  })

abbrev pub not_empty : Pointer ℕ → Result ℕ
not_empty none = err failure_linked_list_empty
not_empty (some a) = ok a

unfoldable pub linked_list_get_first : Pointer LinkedList → Out → Result ℕ
linked_list_get_first linked_list node = do
  l ← non_null linked_list
  writable node
  not_empty l.head

unfoldable pub linked_list_remove_first : Pointer LinkedList → Result LinkedList
unfolding linked_list_get_first
linked_list_remove_first linked_list = do
  l ← non_null linked_list
  first ← linked_list_get_first (some l) given
  node ← load (l.nodes first)
  ok (record { head = node.next; nodes = put l.nodes first none })

-- `while (NULL != ptr->next) { ptr = ptr->next; }`
unfoldable pub walk_last : (rounds : ℕ) → Nodes → ℕ → Option (Result ℕ)
walk_last zero nodes ptr = none
walk_last (suc rounds) nodes ptr = elim (nodes ptr) [
  | none ↦ some fault
  | some node ↦ elim node.next [ none ↦ some (ok ptr) | some next ↦ walk_last rounds nodes next ]
]

unfoldable pub linked_list_get_last : (rounds : ℕ) → Pointer LinkedList → Out → Option (Result ℕ)
unfolding walk_last
linked_list_get_last rounds none node = some (err failure_invalid_input)
linked_list_get_last rounds (some l) node = elim (do writable node; not_empty l.head) [
  | ok first ↦ walk_last rounds l.nodes first
  | err code ↦ some (err code)
  | fault ↦ some fault
]

-- The new node behind the last one.
abbrev pub link_behind : (fresh : Pointer ℕ) → LinkedList → ℕ → Result ℕ → Result LinkedList
link_behind fresh l d found = do
  last ← found
  node ← malloced fresh
  n ← load (l.nodes last)
  let nodes = put l.nodes node (some (record { data' = d; next = none }))
  ok (record l { nodes = put nodes last (some (record n { next = some node })) })

abbrev pub after_rounds : {A B : Type 0} → (A → B) → Option A → Option B
after_rounds f none = none
after_rounds f (some a) = some (f a)

unfoldable pub linked_list_append :
    (rounds : ℕ) (fresh : Pointer ℕ) → Pointer LinkedList → Pointer ℕ → Option (Result LinkedList)
unfolding linked_list_get_last linked_list_prepend
linked_list_append rounds fresh none data' = some (err failure_invalid_input)
linked_list_append rounds fresh (some l) none = some (err failure_invalid_input)
linked_list_append rounds fresh (some l) (some d) =
    if is_null l.head
    then some (linked_list_prepend fresh (some l) (some d))
    else after_rounds (link_behind fresh l d) (linked_list_get_last rounds (some l) given)

-- The loop of `linked_list_length`, with the `uint64_t` that counts.
unfoldable pub walk_length : (rounds : ℕ) → Nodes → Pointer ℕ → ℕ → Option (Result ℕ)
walk_length zero nodes ptr result = none
walk_length (suc rounds) nodes ptr result = elim ptr [
  | none ↦ some (ok result)
  | some a ↦ elim (nodes a) [
    | none ↦ some fault
    | some node ↦ walk_length rounds nodes node.next ((result + 1) % 2 ^ 64)
  ]
]

unfoldable pub linked_list_length : (rounds : ℕ) → Pointer LinkedList → Out → Option (Result ℕ)
unfolding walk_length
linked_list_length rounds none out = some (err failure_invalid_input)
linked_list_length rounds (some l) out = elim (writable out) [
  | ok _ ↦ walk_length rounds l.nodes l.head 0
  | err code ↦ some (err code)
  | fault ↦ some fault
]

-- The loop of `linked_list_find`; `compare_function` tells whether the source's returns 0. The result
-- is what `*node` is set to, if it is set.
unfoldable pub walk_find :
    (rounds : ℕ) → (ℕ → ℕ → Bool) → ℕ → Nodes → Pointer ℕ → Option (Result (Pointer ℕ))
walk_find zero compare_function d nodes ptr = none
walk_find (suc rounds) compare_function d nodes ptr = elim ptr [
  | none ↦ some (ok none)
  | some a ↦ elim (nodes a) [
    | none ↦ some fault
    | some node ↦
        let rest = walk_find rounds compare_function d nodes node.next in
        if compare_function d node.data' then some (ok (some a)) else rest
  ]
]

-- The checks before it.
unfoldable pub find_arguments :
    Pointer (ℕ → ℕ → Bool)
    → Pointer LinkedList
    → Pointer ℕ
    → Out
    → Result (LinkedList × ℕ × (ℕ → ℕ → Bool))
find_arguments compare_function linked_list data' node = do
  l ← non_null linked_list
  d ← non_null data'
  writable node
  f ← compares compare_function
  ok (l, d, f)

unfoldable pub linked_list_find :
    (rounds : ℕ)
    → Pointer (ℕ → ℕ → Bool)
    → Pointer LinkedList
    → Pointer ℕ
    → Out
    → Option (Result (Pointer ℕ))
unfolding walk_find find_arguments
linked_list_find rounds compare_function linked_list data' node =
    elim (find_arguments compare_function linked_list data' node) [
      | ok (l, d, f) ↦ walk_find rounds f d l.nodes l.head
      | err code ↦ some (err code)
      | fault ↦ some fault
    ]

-- The loop of `linked_list_destroy`, which then frees the list itself.
unfoldable pub destroy_loop : (rounds : ℕ) → LinkedList → Option (Result LinkedList)
unfolding linked_list_remove_first
destroy_loop zero l = none
destroy_loop (suc rounds) l = elim l.head [
  | none ↦ some (ok l)
  | some _ ↦ elim (linked_list_remove_first (some l)) [
    | ok l' ↦ destroy_loop rounds l'
    | err code ↦ some (err code)
    | fault ↦ some fault
  ]
]

unfoldable pub linked_list_destroy : (rounds : ℕ) → Pointer LinkedList → Option (Result LinkedList)
unfolding destroy_loop
linked_list_destroy rounds none = some (err failure_invalid_input)
linked_list_destroy rounds (some l) = destroy_loop rounds l
