-- ===== src/Examples/Ownership.antt =====
-- A chain with one block and one transaction is destroyed.
use leocoin.Prelude.{
  ℕ, ◌+◌, ◌≡◌, refl, Option, none, some, List, [], ◌∷◌, ◌==◌, if◌then◌else◌, arith,
}
use leocoin.Result.{ok}
use leocoin.Ownership.{
  Object, transaction_object, node_object, list_object, block_object, blockchain_object,
  synchronized_object, Objects, ended, synchronized_blockchain_destroy,
}
use leocoin.Ownership.Clears.{member, IsCleared}
use leocoin.Ownership.Chains.{
  BlockAt, ChainAt, in_chain, IsBlockAt, IsChainAt, synchronized_blockchain_destroy-IsCleared,
}

-- The objects at the addresses from 1 on; another object is at 9.
abbrev placed : List Object → ℕ → ℕ → Option Object
placed [] from a = none
placed (o ∷ os) from a = let rest = placed os (from + 1) a in if a == from then some o else rest

abbrev objects : Objects
objects =
    placed
      (synchronized_object 2
        ∷ blockchain_object 3
        ∷ list_object (some 4)
        ∷ node_object 5 none
        ∷ block_object 6
        ∷ list_object (some 7)
        ∷ node_object 8 none
        ∷ transaction_object
        ∷ transaction_object
        ∷ [])
      1

abbrev a_block : BlockAt
a_block = record { block = 5; transaction_list = 6; cells = (7, 8) ∷ [] }

abbrev chain : ChainAt 2
chain = record { sync = 1; blockchain = 2; block_list = 3; cells = (4, a_block) ∷ [] }

a_block-IsBlockAt : IsBlockAt 2 objects a_block
unfolding member
a_block-IsBlockAt = record {
  at_block = refl;
  list = record {
    head = some 7;
    at_list = refl;
    holds = (refl, none, refl, refl, refl);
    apart = refl;
    separate = (refl, (refl, (refl, tt)), tt);
  };
  apart = refl;
  enough = omega arith;
}

chain-IsChainAt : IsChainAt 2 objects chain
unfolding member
chain-IsChainAt = record {
  at_sync = refl;
  at_blockchain = refl;
  list = record {
    head = some 4;
    at_list = refl;
    holds = (refl, none, refl, a_block-IsBlockAt, refl);
    apart = refl;
    separate = (refl, (refl, (refl, (refl, (refl, (refl, tt))))), tt);
  };
  apart = refl;
  sync_apart = refl;
  enough = omega arith;
}

synchronized_blockchain_destroy-IsCleared_example :
    (h' : Objects) × (synchronized_blockchain_destroy 2 objects (some 1) ≡ ended (ok h'))
    × IsCleared (1 ∷ 2 ∷ in_chain 2 chain) objects h'
synchronized_blockchain_destroy-IsCleared_example =
    synchronized_blockchain_destroy-IsCleared 2 objects chain chain-IsChainAt
