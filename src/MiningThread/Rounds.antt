-- ===== src/MiningThread/Rounds.antt =====
-- The loop of `mine_blocks` of src/mining_thread.c keeps its chain valid over all rounds.
use leocoin.Prelude.{
  ℕ, suc, ◌≡◌, ◌⊎◌, inl, inr, refl, ap, true, false, none, some, List, [], ◌∷◌, ◌++◌, length,
  Bool-cases, Option-cases,
}
use leocoin.Result.{ok, fault, Pointer}
use leocoin.Endian.Memory.{Host}
use leocoin.Blockchain.{Blockchain}
use leocoin.Crypto.{OpenSsl, HashesTo32}
use leocoin.Files.{Disk}
use leocoin.MiningThread.Loop.{
  Turn, Miner, Mining, Start, stops, mines, fails, mine_turn, mine_turns, mine_blocks,
}
use leocoin.MiningThread.Exit.{AreMined, mine_turns-step, started, mine_blocks-started}
use leocoin.MiningThread.Minable.{
  IsMinable, AreTurns, IsLoopCode, mine_turn-IsMinable, mine_turn-freed,
}

module _ (ssl : OpenSsl) (host : Host) where
  -- How the loop ends, which began with `first`: it is left in the first round at whose start the flag
  -- is set, or has gone through all rounds, or faults in the first round that switches away from a
  -- chain that another thread has destroyed. The rounds before are mined one after the other, and the
  -- chain that they leave is valid.
  pub data IsValidEnd (outfile : Pointer (List ℕ)) (first : Miner) (ts : List Turn)
      : Mining → Type 0 where
    told_to_stop :
        (before after : List Turn) (t : Turn) (left : ℕ) (m : Miner)
        → ts ≡ before ++ t ∷ after
        → AreMined ssl host outfile before first m
        → t.should_stop ≡ true
        → IsMinable ssl host left m.blockchain
        → IsLoopCode m.return_code
        → IsValidEnd outfile first ts (stops m true)
    goes_on :
        (left : ℕ) (m : Miner)
        → AreMined ssl host outfile ts first m
        → IsMinable ssl host left m.blockchain
        → IsValidEnd outfile first ts (mines m)
    freed_twice :
        (before after : List Turn) (t : Turn) (newer : Blockchain) (left : ℕ) (m : Miner)
        → ts ≡ before ++ t ∷ after
        → AreMined ssl host outfile before first m
        → t.should_stop ≡ false
        → t.newer ≡ some newer
        → t.destroyed ≡ true
        → IsMinable ssl host left m.blockchain
        → IsValidEnd outfile first ts (fails false fault)

  module _ (outfile : Pointer (List ℕ)) where
    IsValidEnd-cons :
        (t : Turn) (ts : List Turn) (first next : Miner) (e : Mining)
        → t.should_stop ≡ false
        → mine_turn ssl host outfile t first ≡ ok next
        → IsValidEnd outfile next ts e
        → IsValidEnd outfile first (t ∷ ts) e
    IsValidEnd-cons t ts first next _ going turned
          (told_to_stop before after s left m e run stop minable code) =
        told_to_stop (t ∷ before) after s left m (ap (λ rest. t ∷ rest) e)
          (going, next, turned, run) stop minable code
    IsValidEnd-cons t ts first next _ going turned (goes_on left m run minable) =
        goes_on left m (going, next, turned, run) minable
    IsValidEnd-cons t ts first next _ going turned
          (freed_twice before after s newer left m e run unset switches gone minable) =
        freed_twice (t ∷ before) after s newer left m (ap (λ rest. t ∷ rest) e)
          (going, next, turned, run) unset switches gone minable

    -- Whether a round switches away from a chain that is destroyed.
    switch-cases :
        (t : Turn)
        → ((t.destroyed ≡ false) ⊎ (t.newer ≡ none))
          ⊎ ((t.destroyed ≡ true) × (newer : Blockchain) × (t.newer ≡ some newer))
    switch-cases t = elim (Option-cases t.newer) [
      | inl same ↦ inl (inr same)
      | inr (newer, e) ↦ elim (Bool-cases t.destroyed) [
        | inl gone ↦ inr (gone, newer, e)
        | inr alive ↦ inl (inl alive)
      ]
    ]

    mine_turns-stopped :
        (t : Turn) (ts : List Turn) (m : Miner)
        → t.should_stop ≡ true
        → mine_turns ssl host outfile (t ∷ ts) m ≡ stops m true
    unfolding mine_turns
    mine_turns-stopped t ts m stop = rw (mine_turns, stop) refl

    mine_turns-fault :
        (t : Turn) (ts : List Turn) (m : Miner)
        → t.should_stop ≡ false
        → mine_turn ssl host outfile t m ≡ fault
        → mine_turns ssl host outfile (t ∷ ts) m ≡ fails false fault
    unfolding mine_turns
    mine_turns-fault t ts m going e = rw (mine_turns, going, e) refl

    mine_turns-IsValidEnd :
        (ts : List Turn) (m : Miner)
        → HashesTo32 ssl
        → AreTurns ssl host ts
        → IsMinable ssl host (length ts) m.blockchain
        → IsLoopCode m.return_code
        → IsValidEnd outfile m ts (mine_turns ssl host outfile ts m)
    unfolding mine_turns
    mine_turns-IsValidEnd [] m h32 h minable code = goes_on 0 m refl minable
    mine_turns-IsValidEnd (t ∷ ts) m h32 (h, hs) minable code = elim (Bool-cases t.should_stop) [
      | inl stop ↦
          rw (mine_turns-stopped t ts m stop)
            (told_to_stop [] ts t (suc (length ts)) m refl refl stop minable code)
      | inr going ↦ elim (switch-cases t) [
        | inl alive ↦
            let (m', turned, minable', code') =
              mine_turn-IsMinable ssl host outfile (length ts) t m h32 h alive minable in
            rw (mine_turns-step ssl host outfile t ts m m' going turned) (
              IsValidEnd-cons t ts m m' _ going turned
                (mine_turns-IsValidEnd ts m' h32 hs minable' code'))
        | inr (gone, newer, e) ↦
            rw
              (mine_turns-fault t ts m going
                (mine_turn-freed ssl host outfile (suc (length ts)) t m newer h e gone))
              (freed_twice [] ts t newer (suc (length ts)) m refl refl going e gone minable)
      ]
    ]

-- The loop of `mine_blocks` on a valid chain with a genesis block, whatever other threads write: it
-- is left exactly in the first round at whose start `should_stop` is set, with `exit_ready` set and
-- the code for success or for a search without a proof of work; the rounds before it are all mined,
-- one after the other, and it goes on behind them as long as `should_stop` is unset. The chain that
-- is mined is valid throughout, also where it is replaced by the shared one, and whether or not the
-- output file can be written. The one error is the switch away from a chain that another thread has
-- destroyed, which is destroyed again. Each shared chain is valid and its number of blocks leaves
-- room for the rounds that follow; digests have 32 bytes and are granted their memory, at most 32
-- zero bytes are required, the mutexes are locked and unlocked, and in each round the keys are a
-- pair, the clock fits its type, and memory is granted for a transaction, but never for more than
-- `PTRDIFF_MAX` bytes.
pub mine_blocks-IsValidEnd :
    (ssl : OpenSsl) (host : Host) (args : Start) (disk : Disk) (ts : List Turn)
    → HashesTo32 ssl
    → args.locks ≡ true
    → args.unlocks ≡ true
    → IsMinable ssl host (length ts) args.blockchain
    → AreTurns ssl host ts
    → IsValidEnd ssl host args.outfile
        (started ssl host args disk)
        ts
        (mine_blocks ssl host (some args) disk ts)
mine_blocks-IsValidEnd ssl host args disk ts h32 locks unlocks minable h =
    rw (mine_blocks-started ssl host args disk ts locks unlocks) (
      mine_turns-IsValidEnd ssl host args.outfile ts (started ssl host args disk) h32 h minable
        (inl refl))
