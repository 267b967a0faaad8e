-- ===== src/MiningThread/Exit.antt =====
-- Rounds of `mine_blocks` of src/mining_thread.c that go well.
use leocoin.Prelude.{ℕ, ◌≡◌, refl, true, false, some, List, [], ◌∷◌}
use leocoin.Result.{ok, success, Pointer}
use leocoin.Endian.Memory.{Host}
use leocoin.Crypto.{OpenSsl}
use leocoin.MiningThread.Loop.{Turn, Miner, Start, begin, mine_turn, mine_turns, mine_blocks}
use leocoin.Files.{Disk}

module _ (ssl : OpenSsl) (host : Host) where
  module _ (outfile : Pointer (List ℕ)) where
    -- Rounds that go well, from one state to another.
    abbrev pub AreMined : List Turn → Miner → Miner → Type 0
    AreMined [] m m' = m ≡ m'
    AreMined (t ∷ ts) m m' =
        (t.should_stop ≡ false)
        × (next : Miner) × (mine_turn ssl host outfile t m ≡ ok next)
        × AreMined ts next m'

    pub mine_turns-step :
        (t : Turn) (ts : List Turn) (m m' : Miner)
        → t.should_stop ≡ false
        → mine_turn ssl host outfile t m ≡ ok m'
        → mine_turns ssl host outfile (t ∷ ts) m ≡ mine_turns ssl host outfile ts m'
    unfolding mine_turns
    mine_turns-step t ts m m' going e = rw (mine_turns, going, e) refl

  -- The state in which the loop starts.
  abbrev pub started : Start → Disk → Miner
  started args disk = record { blockchain = args.blockchain; return_code = success; disk = disk }

  pub mine_blocks-started :
      (args : Start) (disk : Disk) (ts : List Turn)
      → args.locks ≡ true
      → args.unlocks ≡ true
      → mine_blocks ssl host (some args) disk ts
        ≡ mine_turns ssl host args.outfile ts (started args disk)
  unfolding mine_blocks begin
  mine_blocks-started args disk ts locks unlocks = rw (locks, unlocks) refl
