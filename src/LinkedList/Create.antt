-- ===== src/LinkedList/Create.antt =====
-- `linked_list_create` of src/linked_list.c.
use leocoin.Prelude.{◌≡◌, refl, true, none, some, []}
use leocoin.Result.{
  Result, ok, ◌>>=◌, ◌>>◌, Pointer, Out, given, non_null, writable, Allocator, malloc,
}
use leocoin.LinkedList.{Nodes, LinkedList}
use leocoin.LinkedList.Shape.{Represents}
use leocoin.PeerDiscovery.Deserialize.{sizeof_linked_list}

-- The functions that the list keeps are arguments of its operations here; only the one that frees
-- must not be NULL.
unfoldable pub linked_list_create :
    Allocator → Nodes → Out → (free_function : Pointer (Unit {0})) → Result LinkedList
linked_list_create grants nodes linked_list free_function = do
  writable linked_list
  _ ← non_null free_function
  malloc grants sizeof_linked_list
  ok (record { head = none; nodes = nodes })

-- The new list is empty, and the nodes that there are stay as they are.
pub linked_list_create-Represents :
    (grants : Allocator) (nodes : Nodes)
    → grants sizeof_linked_list ≡ true
    → (l : LinkedList) × (linked_list_create grants nodes given (some tt) ≡ ok l)
      × Represents l []
      × (l.nodes ≡ nodes)
unfolding linked_list_create
linked_list_create-Represents grants nodes g =
    let l : LinkedList = record { head = none; nodes = nodes } in
    (l, rw g refl, record { cells = []; holds = refl; apart = tt; data' = refl }, refl)
