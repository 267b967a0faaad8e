-- ===== src/MiningThread/Minable.antt =====
-- One round of `mine_blocks` of src/mining_thread.c on a chain that may be mined.
use leocoin.Prelude.{
  ℕ, suc, ◌+◌, ◌^◌, ◌≤◌, ◌<◌, ◌≡◌, ◌⊎◌, inl, inr, refl, true, false, Option, none, some, List, [],
  ◌∷◌, ◌++◌, arith, length, length-append, Option-cases,
}
use leocoin.Result.{
  Result, ok, err, fault, ReturnCode, success, Pointer, failure_could_not_find_valid_proof_of_work,
}
use leocoin.Endian.Memory.{Host}
use leocoin.Blockchain.{Block, Blockchain, IsBlockchain}
use leocoin.Blockchain.Codec.{GrantsUpTo}
use leocoin.Blockchain.Grows.{IsBounded}
use leocoin.Crypto.{OpenSsl, HashesTo32}
use leocoin.Files.{Disk}
use leocoin.Verify.Spec.{IsChain}
use leocoin.MiningThread.Signed.{KeyPair}
use leocoin.MiningThread.Keeps.{IsRound}
use leocoin.MiningThread.Ignored.{write_to_file-ignored}
use leocoin.MiningThread.Typed.{
  IsTyped, IsSearched, search_found, search_exhausted, search_stopped, search_overtaken,
  mine_round-RoundEnds,
}
use leocoin.MiningThread.Loop.{
  Turn, Miner, switch_chain, on_chain, code_after, write_outfile, mine_turn,
}

-- The codes that a round leaves behind where the loop goes on.
abbrev pub IsLoopCode : ReturnCode → Type 0
IsLoopCode code = (code ≡ success) ⊎ (code ≡ failure_could_not_find_valid_proof_of_work)

module _ (ssl : OpenSsl) (host : Host) where
  -- A chain that may be mined for some more rounds: it is valid, starts with a genesis block, and has
  -- room for the new blocks.
  pub record IsMinable (rounds : ℕ) (c : Blockchain) : Type 0 where
    pub typed : IsBlockchain c
    pub small : c.num_leading_zero_bytes ≤ 32
    pub room : length c.block_list + rounds < 2 ^ 64
    pub genesis : Block
    pub others : List Block
    pub begins : c.block_list ≡ genesis ∷ others
    pub chain : IsChain ssl host c.num_leading_zero_bytes c.block_list

  abbrev pub IsNewer : ℕ → Option Blockchain → Type 0
  IsNewer rounds none = Unit
  IsNewer rounds (some c) = IsMinable rounds c

  -- A round with a key pair, memory for a transaction, mutexes that work, and, where the shared chain
  -- is a new one, a valid chain. Nothing is said of the old chain, which may be destroyed already.
  pub record IsTurn (rounds : ℕ) (t : Turn) : Type 0 where
    pub newer : IsNewer rounds t.newer
    pub locks_newer : t.locks_newer ≡ true
    pub unlocks_newer : t.unlocks_newer ≡ true
    pub locks_mined : t.locks_mined ≡ true
    pub unlocks_mined : t.unlocks_mined ≡ true
    pub locks : t.args.sync.locks ≡ true
    pub unlocks : t.args.sync.unlocks ≡ true
    pub args : IsTyped t.args
    pub pair : KeyPair ssl t.args.miner_public_key t.args.miner_private_key
    pub grants : GrantsUpTo 8728 t.args.grants
    pub bounded : IsBounded t.args.grants

  abbrev pub AreTurns : List Turn → Type 0
  AreTurns [] = Unit
  AreTurns (t ∷ ts) = IsTurn (suc (length ts)) t × AreTurns ts

  IsMinable-IsRound :
      (rounds : ℕ) (c c' : Blockchain)
      → IsMinable (suc rounds) c
      → IsBlockchain c'
      → IsRound ssl host c c'
      → IsMinable rounds c'
  IsMinable-IsRound rounds c c' m typed round = elim round.extends [
    | inl same ↦ record {
      typed = typed;
      small = rw same m.small;
      room = rw same (omega (arith, m.room));
      genesis = m.genesis;
      others = m.others;
      begins = rw same m.begins;
      chain = round.chain;
    }
    | inr (b, longer) ↦ record {
      typed = typed;
      small = rw longer m.small;
      room = rw longer (omega (arith, m.room, length-append c.block_list (b ∷ [])));
      genesis = m.genesis;
      others = m.others ++ b ∷ [];
      begins = rw (longer, m.begins) refl;
      chain = round.chain;
    }
  ]

  switch_chain-IsMinable :
      (rounds : ℕ) (t : Turn) (c : Blockchain)
      → IsTurn rounds t
      → (t.destroyed ≡ false) ⊎ (t.newer ≡ none)
      → IsMinable rounds c
      → (b : Blockchain) × (switch_chain t c ≡ ok b) × IsMinable rounds b
  unfolding switch_chain
  switch_chain-IsMinable rounds t c h (inr same) m = (c, rw same refl, m)
  switch_chain-IsMinable rounds t c h (inl alive) m = elim (Option-cases t.newer) [
    | inl same ↦ (c, rw same refl, m)
    | inr (newer, e) ↦ (
      newer,
      rw (e, h.locks_newer, h.unlocks_newer, alive, h.locks_mined, h.unlocks_mined) refl,
      rw e at h.newer,
    )
  ]

  code_after-IsLoopCode : (r : Result (Unit {0})) → IsSearched r → IsLoopCode (code_after r)
  code_after-IsLoopCode _ search_found = inl refl
  code_after-IsLoopCode _ search_exhausted = inr refl
  code_after-IsLoopCode _ search_stopped = inl refl
  code_after-IsLoopCode _ search_overtaken = inl refl

  module _ (outfile : Pointer (List ℕ)) where
    write_outfile-ok :
        (t : Turn) (r : Result (Unit {0})) (c : Blockchain) (disk : Disk)
        → IsBounded t.args.grants
        → (disk' : Disk) × (write_outfile ssl host outfile t r c disk ≡ ok disk')
    unfolding write_outfile
    write_outfile-ok t (ok _) c disk bounded = elim (Option-cases outfile) [
      | inl unset ↦ (disk, rw unset refl)
      | inr (name, e) ↦
          let (disk', written) =
            write_to_file-ignored t.args.grants host t.access disk c name bounded in
          (disk', rw e written)
    ]
    write_outfile-ok t (err _) c disk bounded = (disk, refl)
    write_outfile-ok t fault c disk bounded = (disk, refl)

    pub mine_turn-IsMinable :
        (rounds : ℕ) (t : Turn) (m : Miner)
        → HashesTo32 ssl
        → IsTurn (suc rounds) t
        → (t.destroyed ≡ false) ⊎ (t.newer ≡ none)
        → IsMinable (suc rounds) m.blockchain
        → (m' : Miner) × (mine_turn ssl host outfile t m ≡ ok m')
          × IsMinable rounds m'.blockchain
          × IsLoopCode m'.return_code
    unfolding mine_turn
    mine_turn-IsMinable rounds t m h32 h alive minable =
        let (b, switched, mb) =
          switch_chain-IsMinable (suc rounds) t m.blockchain h alive minable in
        let r =
          mine_round-RoundEnds ssl host (on_chain t.args b) mb.genesis mb.others h32
            (record {
              transaction_time = h.args.transaction_time;
              block_time = h.args.block_time;
              miner_public_key = h.args.miner_public_key;
            })
            mb.typed (omega (arith, mb.room)) mb.small h.locks h.unlocks h.pair h.grants mb.begins
            mb.chain in
        let (disk, written) = write_outfile-ok t r.mined.1 r.left m.disk h.bounded in
        (
          record { blockchain = r.left; return_code = code_after r.mined.1; disk = disk },
          rw (switched, r.searched, r.added, written) refl,
          IsMinable-IsRound rounds b r.left mb r.typed r.round,
          code_after-IsLoopCode r.mined.1 r.is_searched,
        )

    -- The switch away from a chain that another thread has destroyed.
    pub mine_turn-freed :
        (rounds : ℕ) (t : Turn) (m : Miner) (newer : Blockchain)
        → IsTurn rounds t
        → t.newer ≡ some newer
        → t.destroyed ≡ true
        → mine_turn ssl host outfile t m ≡ fault
    unfolding mine_turn switch_chain
    mine_turn-freed rounds t m newer h e gone =
        rw (mine_turn, e, h.locks_newer, h.unlocks_newer, gone) refl
