-- ===== src/Examples/Saved.antt =====
-- A round of the miner that finds a block, and its output file.
use leocoin.Prelude.{
  ℕ, ◌≡◌, refl, true, false, none, some, [], ◌∷◌, ◌++◌, arith, length, length-replicate,
  length-append, replicate, split_at?, bytes_eq,
}
use leocoin.Result.{ok, given, success}
use leocoin.Endian.Memory.{big_endian}
use leocoin.Blockchain.{Transaction, IsTransaction, Block, Blockchain, IsBlock, IsBlockchain}
use leocoin.Blockchain.Format.{blockchain_bytes}
use leocoin.Files.{FileAccess, blockchain_read_from_file}
use leocoin.Verify.{blockchain_verify, blockchain_is_valid_block_hash}
use leocoin.Transaction.{bytes_at, transaction_create}
use leocoin.Block.{block_create, block_hash}
use leocoin.Chain.{get_last}
use leocoin.Mining.{synchronized_blockchain_mine_block, mine_loop}
use leocoin.Examples.Chains.{length-two_blocks}
use leocoin.MiningThread.{search_round}
use leocoin.MiningThread.Loop.{Turn, Miner, on_chain, mine_turn}
use leocoin.MiningThread.Saved.{with_block, mine_turn-saved}
use leocoin.Examples.Data.{host, grants_all, heap, key, genesis, genesis-IsBlock, ssl}

abbrev start : Blockchain
start = record { block_list = genesis ∷ []; num_leading_zero_bytes = 3 }

abbrev access : FileAccess
access = record { opens = true; stops_after = 10000 }

abbrev turn : Turn
turn = record {
  should_stop = false;
  newer = none;
  locks_newer = true;
  unlocks_newer = true;
  destroyed = false;
  locks_mined = true;
  unlocks_mined = true;
  args = record {
    sync = record { blockchain = start; locks = true; unlocks = true; version = λ _. 0 };
    miner_public_key = key;
    miner_private_key = key;
    should_stop = λ _. false;
    sync_version_currently_mined = λ _. 0;
    transaction_time = 1700000000;
    block_time = 1700000001;
    grants = grants_all;
  };
  access = access;
}

-- The transaction that is signed, and the block that is found at once, since every hash is zero.
abbrev minted : Transaction
minted = record {
  created_at = 1700000000;
  sender_public_key = key;
  recipient_public_key = key;
  amount = 1;
  sender_signature = record { len = 256; bytes = replicate 256 9 ++ replicate 256 0 };
}

abbrev found : Block
found = record {
  created_at = 1700000001;
  transaction_list = minted ∷ [];
  proof_of_work = 0;
  previous_block_hash = replicate 32 0;
}

found-searched : search_round ssl host (on_chain turn.args start) ≡ ok (found, ok tt)
unfolding search_round blockchain_verify bytes_at split_at? bytes_eq block_hash get_last
    transaction_create block_create synchronized_blockchain_mine_block mine_loop
    blockchain_is_valid_block_hash
found-searched = refl

minted-IsTransaction : IsTransaction minted
minted-IsTransaction = record {
  created_at = omega arith;
  sender_public_key = length-replicate {A = ℕ} 4096 65;
  recipient_public_key = length-replicate {A = ℕ} 4096 65;
  amount = omega arith;
  signature_len = omega arith;
  signature_bytes = omega (
    arith,
    length-append {A = ℕ} (replicate 256 9) (replicate 256 0),
    length-replicate {A = ℕ} 256 9,
    length-replicate {A = ℕ} 256 0,
  );
}

found-IsBlock : IsBlock found
found-IsBlock = record {
  created_at = omega arith;
  transaction_list = (minted-IsTransaction, tt);
  num_transactions = omega arith;
  proof_of_work = omega arith;
  previous_block_hash = length-replicate {A = ℕ} 32 0;
}

grown-IsBlockchain : IsBlockchain (with_block start found)
grown-IsBlockchain = record {
  block_list = (genesis-IsBlock, (found-IsBlock, tt));
  num_blocks = omega arith;
  num_leading_zero_bytes = omega arith;
}

length-grown : length (blockchain_bytes host (with_block start found)) ≡ 8856
length-grown = length-two_blocks host found minted found-IsBlock minted-IsTransaction refl

abbrev idle : Miner
idle = record { blockchain = start; return_code = success; disk = λ _. none }

mine_turn-saved_example :
    (m' : Miner) × (mine_turn ssl host (some (98 ∷ [])) turn idle ≡ ok m')
    × (m'.blockchain ≡ with_block start found)
    × (m'.return_code ≡ success)
    × (blockchain_read_from_file grants_all heap big_endian access m'.disk given (some (98 ∷ []))
        ≡ ok m'.blockchain)
mine_turn-saved_example =
    mine_turn-saved ssl host (98 ∷ []) turn idle found heap big_endian access refl found-searched
      grown-IsBlockchain (λ _. refl) (λ _ _. refl) (omega (arith, length-grown)) refl
      (omega (arith, length-grown)) refl (omega (arith, length-grown))
