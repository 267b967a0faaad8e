-- ===== src/Examples/Miner.antt =====
-- The theorems on src/mining_thread.c at concrete values.
use leocoin.Prelude.{
  ℕ, ◌≡◌, refl, true, false, some, none, [], ◌∷◌, arith, length-replicate, replicate, ltb, lt→ltb,
  le→ltb_false, ◌^◌,
}
use leocoin.Result.{ok, fault, given, Allocator}
use leocoin.Verify.{invalid, blockchain_verify}
use leocoin.Chain.{get_last}
use leocoin.Blockchain.{Block, IsBlock, Blockchain, IsBlockchain}
use leocoin.MiningThread.{MineBlocksArgs, mine_round}
use leocoin.MiningThread.Signed.{KeyPair}
use leocoin.MiningThread.Unreported.{mine_round_unreported}
use leocoin.MiningThread.Loop.{Turn, Start, mine_blocks}
use leocoin.MiningThread.Exit.{started}
use leocoin.MiningThread.Minable.{IsMinable}
use leocoin.MiningThread.Rounds.{IsValidEnd, mine_blocks-IsValidEnd}
use leocoin.MiningThread.Keeps.{IsRound, mine_round-IsRound}
use leocoin.Examples.Data.{
  host, grants_all, genesis, genesis-IsBlock, block, key, ssl, ssl-HashesTo32,
}

abbrev start : Blockchain
start = record { block_list = genesis ∷ []; num_leading_zero_bytes = 3 }

start-IsBlockchain : IsBlockchain start
start-IsBlockchain = record {
  block_list = (genesis-IsBlock, tt);
  num_blocks = omega arith;
  num_leading_zero_bytes = omega arith;
}

abbrev args_on : Blockchain → MineBlocksArgs
args_on c = record {
  sync = record { blockchain = c; locks = true; unlocks = true; version = λ _. 0 };
  miner_public_key = key;
  miner_private_key = key;
  should_stop = λ _. false;
  sync_version_currently_mined = λ _. 0;
  transaction_time = 1700000000;
  block_time = 1700000001;
  grants = grants_all;
}

key-KeyPair : KeyPair ssl key key
key-KeyPair = record {
  public_key = tt;
  private_key = tt;
  reads_public = refl;
  reads_private = refl;
  is_rsa = refl;
  bio_new_mem_buf = λ _. refl;
  md_ctx_new = refl;
  verify_init = refl;
  verify_update = λ _. refl;
  sign_init = refl;
  sign_update = λ _. refl;
  sign_length = λ _. (256, refl);
  signs = λ _. (replicate 256 9, refl, omega (arith, length-replicate {A = ℕ} 256 9));
  verifies = λ _ _ _. refl;
}

mine_round-IsRound_example :
    (c' : Blockchain) × (mine_round ssl host (args_on start) ≡ ok c') × IsRound ssl host start c'
mine_round-IsRound_example =
    mine_round-IsRound ssl host (args_on start) genesis [] ssl-HashesTo32 start-IsBlockchain
      (omega arith) refl refl key-KeyPair (λ _ _. refl) refl
      (record { empty = refl; proof = refl; unlinked = refl }, tt)

-- A block without transactions behind the genesis block.
abbrev bare : Block
bare = record block { transaction_list = [] }

bare-IsBlock : IsBlock bare
bare-IsBlock = record {
  created_at = omega arith;
  transaction_list = tt;
  num_transactions = omega arith;
  proof_of_work = omega arith;
  previous_block_hash = length-replicate {A = ℕ} 32 0;
}

abbrev barren : Blockchain
barren = record { block_list = genesis ∷ bare ∷ []; num_leading_zero_bytes = 3 }

barren-IsBlockchain : IsBlockchain barren
barren-IsBlockchain = record {
  block_list = (genesis-IsBlock, (bare-IsBlock, tt));
  num_blocks = omega arith;
  num_leading_zero_bytes = omega arith;
}

mine_round_unreported_example :
    (blockchain_verify ssl host given (some barren) given ≡ ok (invalid none))
    × (mine_round ssl host (args_on barren) ≡ fault)
mine_round_unreported_example =
    mine_round_unreported ssl host (args_on barren) genesis [] genesis bare [] ssl-HashesTo32
      barren-IsBlockchain (omega arith) refl (unfold get_last in refl)
      (record { empty = refl; proof = refl; unlinked = refl }, tt)
      (record { proof = (replicate 29 0, refl); linked = refl; empty = refl })

-- A chain whose genesis block has the wrong proof of work.
abbrev wrong : Blockchain
wrong = record {
  block_list = record genesis { proof_of_work = 1 } ∷ [];
  num_leading_zero_bytes = 3;
}

wrong-invalid :
    blockchain_verify ssl host given (some wrong) given
    ≡ ok (invalid (some (record genesis { proof_of_work = 1 })))
unfolding blockchain_verify
wrong-invalid = refl

abbrev turn : Turn
turn = record {
  should_stop = false;
  newer = none;
  locks_newer = true;
  unlocks_newer = true;
  destroyed = false;
  locks_mined = true;
  unlocks_mined = true;
  args = args_on start;
  access = record { opens = true; stops_after = 1000000 };
}

abbrev start_on : Blockchain → Start
start_on c = record { blockchain = c; outfile = none; locks = true; unlocks = true }

start-IsMinable : IsMinable ssl host 1 start
start-IsMinable = record {
  typed = start-IsBlockchain;
  small = omega arith;
  room = omega arith;
  genesis = genesis;
  others = [];
  begins = refl;
  chain = (record { empty = refl; proof = refl; unlinked = refl }, tt);
}

-- An allocator that refuses what the C library refuses.
abbrev grants_small : Allocator
grants_small size = ltb size (2 ^ 63)

abbrev saving_turn : Turn
saving_turn = record turn {
  newer = some start;
  args = record (args_on start) { grants = grants_small };
}

abbrev saved_start : Start
saved_start = record (start_on start) { outfile = some (98 ∷ []) }

mine_blocks-IsValidEnd_example :
    IsValidEnd ssl host
      (some (98 ∷ []))
      (started ssl host saved_start (λ _. none))
      (saving_turn ∷ [])
      (mine_blocks ssl host (some saved_start) (λ _. none) (saving_turn ∷ []))
mine_blocks-IsValidEnd_example =
    mine_blocks-IsValidEnd ssl host saved_start (λ _. none) (saving_turn ∷ []) ssl-HashesTo32 refl
      refl start-IsMinable
      (
        record {
          newer = start-IsMinable;
          locks_newer = refl;
          unlocks_newer = refl;
          locks_mined = refl;
          unlocks_mined = refl;
          locks = refl;
          unlocks = refl;
          args = record {
            transaction_time = omega arith;
            block_time = omega arith;
            miner_public_key = refl;
          };
          pair = key-KeyPair;
          grants = λ m small. lt→ltb m (2 ^ 63) (omega arith);
          bounded = λ m big. le→ltb_false (2 ^ 63) m big;
        },
        tt,
      )
