-- ===== src/Ownership.antt =====
-- The functions that free a chain: `transaction_destroy` of src/transaction.c, `block_destroy` of
-- src/block.c, `blockchain_destroy` and `synchronized_blockchain_destroy` of src/blockchain.c, with
-- `linked_list_destroy` and `linked_list_remove_first` of src/linked_list.c, on the objects that are
-- allocated. Of an object only its pointers are kept.
pub mod Clears
pub mod Lists
pub mod Chains
use leocoin.Prelude.{ℕ, zero, suc, Option, none, some, ◌==◌, if◌then◌else◌}
use leocoin.Result.{
  Result, ok, err, fault, Pointer, failure_invalid_input, failure_linked_list_empty,
}

-- The lists of a block and of a chain, and the chain behind the mutex, are never NULL.
pub data Object : Type 0 where
  transaction_object : Object
  node_object : (data' : ℕ) (next : Pointer ℕ) → Object
  list_object : (head : Pointer ℕ) → Object
  block_object : (transaction_list : ℕ) → Object
  blockchain_object : (block_list : ℕ) → Object
  synchronized_object : (blockchain : ℕ) → Object

-- What is allocated, by address.
abbrev pub Objects : Type 0
Objects = ℕ → Option Object

abbrev pub set_object : Objects → ℕ → Option Object → Objects
set_object h a v b = if b == a then v else h b

-- A loop has rounds; the result is there where they are enough.
pub data Rounds (A : Type 0) : Type 0 where
  ended : Result A → Rounds A
  out_of_rounds : Rounds A

infixl 5 ◌>>=◌
abbrev pub ◌>>=◌ : {A B : Type 0} → Rounds A → (A → Rounds B) → Rounds B
ended (ok a) >>= f = f a
ended (err e) >>= f = ended (err e)
ended fault >>= f = ended fault
out_of_rounds >>= f = out_of_rounds

-- `free`, and access to an object: a fault where it is not allocated, or another object is.
unfoldable pub free_object : Objects → ℕ → Result Objects
free_object h a = elim (h a) [ none ↦ fault | some _ ↦ ok (set_object h a none) ]

abbrev pub load_node : Option Object → Result (ℕ × Pointer ℕ)
load_node (some (node_object d next)) = ok (d, next)
load_node _ = fault

abbrev pub load_list : Option Object → Result (Pointer ℕ)
load_list (some (list_object head)) = ok head
load_list _ = fault

abbrev pub load_block : Option Object → Result ℕ
load_block (some (block_object l)) = ok l
load_block _ = fault

abbrev pub load_blockchain : Option Object → Result ℕ
load_blockchain (some (blockchain_object l)) = ok l
load_blockchain _ = fault

abbrev pub load_synchronized : Option Object → Result ℕ
load_synchronized (some (synchronized_object c)) = ok c
load_synchronized _ = fault

abbrev pub first_of : Pointer ℕ → Result ℕ
first_of none = err failure_linked_list_empty
first_of (some a) = ok a

-- `free_function` is what the list keeps for its data.
module _ (free_function : Objects → ℕ → Rounds Objects) where
  unfoldable pub linked_list_remove_first : Objects → (linked_list : ℕ) → Rounds Objects
  unfolding free_object
  linked_list_remove_first h l = do
    head ← ended (load_list (h l))
    first ← ended (first_of head)
    (d, next) ← ended (load_node (h first))
    h' ← free_function (set_object h l (some (list_object next))) d
    ended (free_object h' first)

  unfoldable pub destroy_loop : (rounds : ℕ) → Objects → (linked_list : ℕ) → Rounds Objects
  unfolding linked_list_remove_first
  destroy_loop zero h l = out_of_rounds
  destroy_loop (suc rounds) h l = elim (load_list (h l)) [
    | ok none ↦ ended (ok h)
    | ok (some _) ↦ linked_list_remove_first h l >>= λ h'. destroy_loop rounds h' l
    | err code ↦ ended (err code)
    | fault ↦ ended fault
  ]

  unfoldable pub linked_list_destroy : (rounds : ℕ) → Objects → (linked_list : ℕ) → Rounds Objects
  unfolding destroy_loop free_object
  linked_list_destroy rounds h l = do h' ← destroy_loop rounds h l; ended (free_object h' l)

-- Also `free`, with which the mining thread makes its lists of transactions.
unfoldable pub transaction_destroy : Objects → (transaction : ℕ) → Rounds Objects
unfolding free_object
transaction_destroy h a = ended (free_object h a)

unfoldable pub block_destroy : (rounds : ℕ) → Objects → (block : ℕ) → Rounds Objects
unfolding linked_list_destroy transaction_destroy free_object
block_destroy rounds h a = do
  transaction_list ← ended (load_block (h a))
  h' ← linked_list_destroy transaction_destroy rounds h transaction_list
  ended (free_object h' a)

unfoldable pub blockchain_destroy : (rounds : ℕ) → Objects → (blockchain : ℕ) → Rounds Objects
unfolding linked_list_destroy block_destroy free_object
blockchain_destroy rounds h a = do
  block_list ← ended (load_blockchain (h a))
  h' ← linked_list_destroy (block_destroy rounds) rounds h block_list
  ended (free_object h' a)

unfoldable pub synchronized_blockchain_destroy :
    (rounds : ℕ) → Objects → (sync : Pointer ℕ) → Rounds Objects
unfolding blockchain_destroy free_object
synchronized_blockchain_destroy rounds h none = ended (err failure_invalid_input)
synchronized_blockchain_destroy rounds h (some sync) = do
  blockchain ← ended (load_synchronized (h sync))
  h' ← blockchain_destroy rounds h blockchain
  ended (free_object h' sync)
