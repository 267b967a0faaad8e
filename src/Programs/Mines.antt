-- ===== src/Programs/Mines.antt =====
-- The miner of src/miner.c, from its command line to its exit.
use leocoin.Prelude.{ℕ, ◌^◌, ◌<◌, ◌≡◌, ◌⊎◌, true, false, some, List, [], ◌∷◌, ◌++◌}
use leocoin.Result.{ReturnCode, success, failure_could_not_find_valid_proof_of_work}
use leocoin.Endian.Memory.{Host}
use leocoin.Blockchain.{Block, Blockchain, zero_hash}
use leocoin.Blockchain.Codec.{GrantsUpTo}
use leocoin.Crypto.{OpenSsl}
use leocoin.Files.{Disk}
use leocoin.MiningThread.Loop.{Turn, Miner}
use leocoin.MiningThread.Exit.{AreMined, started}
use leocoin.MiningThread.Minable.{IsMinable}
use leocoin.MiningThread.Rounds
use leocoin.Programs.{Process, exits, crashes, goes_on}
use leocoin.Programs.MinerMain.{MinerProcess, outfile_name, start_with}

-- Memory, mutexes and conditions of which the process gets what it asks for.
pub record IsServed (p : MinerProcess) : Type 0 where
  pub grants : GrantsUpTo 56 p.grants
  pub grants_sync : p.grants_sync ≡ true
  pub exit_ready_cond : p.exit_ready_cond ≡ 0
  pub exit_ready_mutex : p.exit_ready_mutex ≡ 0
  pub mined_cond : p.mined_cond ≡ 0
  pub mined_mutex : p.mined_mutex ≡ 0
  pub locks : p.locks ≡ true
  pub unlocks : p.unlocks ≡ true
  pub grants_return_code : p.grants_return_code ≡ true
  pub genesis_time : p.genesis_time < 2 ^ 64

abbrev genesis_block : MinerProcess → Block
genesis_block p = record {
  created_at = p.genesis_time;
  transaction_list = [];
  proof_of_work = 2017;
  previous_block_hash = zero_hash;
}

abbrev genesis_chain : MinerProcess → Blockchain
genesis_chain p = record { block_list = genesis_block p ∷ []; num_leading_zero_bytes = 3 }

module _ (ssl : OpenSsl) (host : Host) where
  module _ (p : MinerProcess) (disk : Disk) (ts : List Turn) where
    abbrev pub first_miner : Miner
    first_miner =
        started ssl host (start_with p (record { blockchain = genesis_chain p; version = 0 })) disk

    -- The rounds that are mined, from a chain of the genesis block.
    abbrev pub Mined : List Turn → Miner → Type 0
    Mined rounds m = AreMined ssl host (some outfile_name) rounds first_miner m

    -- The status that belongs to the code of the thread.
    abbrev pub IsStatusOf : ReturnCode → ℕ → Type 0
    IsStatusOf code status =
        ((code ≡ success) × (status ≡ 0))
        ⊎ ((code ≡ failure_could_not_find_valid_proof_of_work) × (status ≡ 5))

    -- How the process goes on or ends that mines these rounds.
    pub data IsMiner : Process → Type 0 where
      mines_on :
          (left : ℕ) (m : Miner)
          → Mined ts m
          → IsMinable ssl host left m.blockchain
          → IsMiner goes_on
      told_to_exit :
          (before after : List Turn) (t : Turn) (left : ℕ) (m : Miner) (status : ℕ)
          → ts ≡ before ++ t ∷ after
          → Mined before m
          → t.should_stop ≡ true
          → IsMinable ssl host left m.blockchain
          → IsStatusOf m.return_code status
          → IsMiner (exits status)
      frees_twice :
          (before after : List Turn) (t : Turn) (newer : Blockchain) (m : Miner)
          → ts ≡ before ++ t ∷ after
          → Mined before m
          → t.should_stop ≡ false
          → t.newer ≡ some newer
          → t.destroyed ≡ true
          → IsMiner crashes
