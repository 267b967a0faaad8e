-- ===== src/Chain.antt =====
-- `blockchain_create` and `blockchain_add_block` of src/blockchain.c, and the functions of
-- src/linked_list.c that they and the miner use, on the list of the elements.
use leocoin.Prelude.{ℕ, List, [], ◌∷◌, ◌++◌}
use leocoin.Result.{
  Result, ok, err, ◌>>=◌, ◌>>◌, Pointer, Out, non_null, writable, Allocator, malloc,
  failure_linked_list_empty,
}
use leocoin.Blockchain.{Block, Blockchain}

unfoldable pub blockchain_create : Allocator → Out → ℕ → Result Blockchain
blockchain_create grants blockchain num_leading_zero_bytes = do
  writable blockchain
  malloc grants 16
  malloc grants 24
  ok (record { block_list = []; num_leading_zero_bytes = num_leading_zero_bytes })

-- `linked_list_append` puts a new node behind the last one.
unfoldable pub blockchain_add_block :
    Allocator → Pointer Blockchain → Pointer Block → Result Blockchain
blockchain_add_block grants blockchain block = do
  c ← non_null blockchain
  b ← non_null block
  malloc grants 16
  ok (record c { block_list = c.block_list ++ b ∷ [] })

-- `linked_list_get_last`
unfoldable pub get_last : {A : Type 0} → List A → Result A
get_last [] = err failure_linked_list_empty
get_last (x ∷ []) = ok x
get_last (x ∷ y ∷ xs) = get_last (y ∷ xs)
