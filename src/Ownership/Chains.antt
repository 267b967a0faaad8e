-- ===== src/Ownership/Chains.antt =====
-- Destroying a chain frees everything that belongs to it, once, and nothing else.
use leocoin.Prelude.{
  ℕ, ◌<◌, ◌≡◌, refl, ◌∙◌, true, false, none, some, List, [], ◌∷◌, ◌==◌, ==-refl, Bool-cases, inl,
  inr, length,
}
use leocoin.Result.{ok}
use leocoin.Ownership.{
  transaction_object, block_object, blockchain_object, synchronized_object, Objects, set_object,
  ended, transaction_destroy, block_destroy, blockchain_destroy, synchronized_blockchain_destroy,
}
use leocoin.Ownership.Clears.{member, IsCleared, IsCleared-owner, free_object-allocated}
use leocoin.Ownership.Lists.{
  Owned, Frees, owns_all, IsList, member_cons, IsList-frame, linked_list_destroy-IsCleared,
}

pub transaction-frame :
    (a : ℕ) (h h' : Objects)
    → ((b : ℕ) → member b (a ∷ []) ≡ true → h' b ≡ h b)
    → h a ≡ some transaction_object
    → h' a ≡ some transaction_object
unfolding member
transaction-frame a h h' same e = same a (rw (==-refl a) refl) ∙ e

-- A transaction owns itself.
abbrev pub transactions : Owned ℕ
transactions = record {
  address = λ a. a;
  owns = λ a. a ∷ [];
  At = λ h a. h a ≡ some transaction_object;
  frame = transaction-frame;
}

transaction_destroy-Frees : Frees transactions transaction_destroy
unfolding transaction_destroy member
transaction_destroy-Frees h a e = (
  set_object h a none,
  rw (free_object-allocated h a transaction_object e) refl,
  record {
    at_address =
        λ b. elim (Bool-cases (b == a)) [ inl same ↦ rw same refl | inr other ↦ rw other refl ];
  },
)

-- A block with its list and the cells of its transactions.
pub record BlockAt : Type 0 where
  pub block : ℕ
  pub transaction_list : ℕ
  pub cells : List (ℕ × ℕ)

abbrev pub in_block : BlockAt → List ℕ
in_block b = b.transaction_list ∷ owns_all transactions b.cells

module _ (rounds : ℕ) where
  -- The block is in memory, its objects at different addresses, and has fewer transactions than the
  -- loop has rounds.
  pub record IsBlockAt (h : Objects) (b : BlockAt) : Type 0 where
    pub at_block : h b.block ≡ some (block_object b.transaction_list)
    pub list : IsList transactions h b.transaction_list b.cells
    pub apart : member b.block (in_block b) ≡ false
    pub enough : length b.cells < rounds

  pub IsBlockAt-frame :
      (b : BlockAt) (h h' : Objects)
      → ((a : ℕ) → member a (b.block ∷ in_block b) ≡ true → h' a ≡ h a)
      → IsBlockAt h b
      → IsBlockAt h' b
  unfolding member
  IsBlockAt-frame b h h' same v = record {
    at_block = same b.block (rw (==-refl b.block) refl) ∙ v.at_block;
    list =
        IsList-frame transactions h h' b.transaction_list b.cells
          (λ a m. same a (member_cons transactions a b.block (in_block b) m)) v.list;
    apart = v.apart;
    enough = v.enough;
  }

  abbrev pub blocks : Owned BlockAt
  blocks = record {
    address = λ b. b.block;
    owns = λ b. b.block ∷ in_block b;
    At = IsBlockAt;
    frame = IsBlockAt-frame;
  }

  block_destroy-Frees : Frees blocks (block_destroy rounds)
  unfolding block_destroy
  block_destroy-Frees h b v =
      let (h1, destroyed, clear) =
        linked_list_destroy-IsCleared transactions transaction_destroy transaction_destroy-Frees
          rounds h b.transaction_list b.cells v.list v.enough in
      let (freed, clear') =
        IsCleared-owner b.block (block_object b.transaction_list) (in_block b) h h1 v.at_block
          v.apart clear in
      (set_object h1 b.block none, rw (v.at_block, destroyed, freed) refl, clear')

  -- A chain behind its mutex, with its list and the cells of its blocks.
  pub record ChainAt : Type 0 where
    pub sync : ℕ
    pub blockchain : ℕ
    pub block_list : ℕ
    pub cells : List (ℕ × BlockAt)

  abbrev pub in_chain : ChainAt → List ℕ
  in_chain c = c.block_list ∷ owns_all blocks c.cells

  pub record IsChainAt (h : Objects) (c : ChainAt) : Type 0 where
    pub at_sync : h c.sync ≡ some (synchronized_object c.blockchain)
    pub at_blockchain : h c.blockchain ≡ some (blockchain_object c.block_list)
    pub list : IsList blocks h c.block_list c.cells
    pub apart : member c.blockchain (in_chain c) ≡ false
    pub sync_apart : member c.sync (c.blockchain ∷ in_chain c) ≡ false
    pub enough : length c.cells < rounds

  -- `synchronized_blockchain_destroy`, on a chain in memory whose objects have different addresses,
  -- ends without a double free or an access to freed memory, with more rounds than there are blocks
  -- in the chain and transactions in each block. It frees the object with the mutex, the chain, its
  -- list, and of every block the node, the block, its list, and every transaction with its node, and
  -- leaves every other object as it was.
  pub synchronized_blockchain_destroy-IsCleared :
      (h : Objects) (c : ChainAt)
      → IsChainAt h c
      → (h' : Objects) × (synchronized_blockchain_destroy rounds h (some c.sync) ≡ ended (ok h'))
        × IsCleared (c.sync ∷ c.blockchain ∷ in_chain c) h h'
  unfolding synchronized_blockchain_destroy blockchain_destroy
  synchronized_blockchain_destroy-IsCleared h c v =
      let (h1, destroyed, clear) =
        linked_list_destroy-IsCleared blocks (block_destroy rounds) block_destroy-Frees rounds h
          c.block_list c.cells v.list v.enough in
      let (freed, clear') =
        IsCleared-owner c.blockchain (blockchain_object c.block_list) (in_chain c) h h1
          v.at_blockchain v.apart clear in
      let h2 = set_object h1 c.blockchain none in
      let (freed', clear'') =
        IsCleared-owner c.sync (synchronized_object c.blockchain) (c.blockchain ∷ in_chain c) h h2
          v.at_sync v.sync_apart clear' in
      (
        set_object h2 c.sync none,
        rw (v.at_sync, v.at_blockchain, destroyed, freed, freed') refl,
        clear'',
      )
