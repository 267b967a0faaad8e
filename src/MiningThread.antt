-- ===== src/MiningThread.antt =====
-- One round of the loop of `mine_blocks` in src/mining_thread.c, from the check of the chain to the
-- new block at its end, where no other thread has replaced the chain before the round.
pub mod Signed
pub mod Keeps
pub mod Unreported
pub mod Loop
pub mod Exit
pub mod Typed
pub mod Ignored
pub mod Minable
pub mod Rounds
pub mod Saved
use leocoin.Prelude.{ℕ, Bool, true, false, Option, none, some, List, [], ◌∷◌}
use leocoin.Result.{
  Result, ok, err, fault, ◌>>=◌, ◌>>◌, ReturnCode, Pointer, given, Allocator, malloc,
  failure_invalid_blockchain, failure_could_not_find_valid_proof_of_work,
  failure_longer_blockchain_detected, failure_stopped_early,
}
use leocoin.Endian.Memory.{Host}
use leocoin.Blockchain.{SshKey, Transaction, Block, Blockchain, amount_generated_during_minting}
use leocoin.Crypto.{OpenSsl}
use leocoin.Transaction.{transaction_create}
use leocoin.Block.{block_create, block_hash}
use leocoin.Chain.{blockchain_add_block, get_last}
use leocoin.Verify.{Verdict, valid, invalid, blockchain_verify}
use leocoin.Mining.{Schedule, Mined, SynchronizedBlockchain, synchronized_blockchain_mine_block}

-- What `mine_blocks_args_t` holds, and what the clock and the allocator answer in this round.
pub record MineBlocksArgs : Type 0 where
  pub sync : SynchronizedBlockchain
  pub miner_public_key : SshKey
  pub miner_private_key : SshKey
  pub should_stop : Schedule Bool
  pub sync_version_currently_mined : Schedule ℕ
  pub transaction_time : ℕ
  pub block_time : ℕ
  pub grants : Allocator

-- What is done with the answer of `blockchain_verify`: the fields of the first invalid block are
-- printed, a fault where the pointer to it is still NULL.
unfoldable pub require_valid : Verdict → Result (Unit {0})
require_valid valid = ok tt
require_valid (invalid (some b)) = err failure_invalid_blockchain
require_valid (invalid none) = fault

module _ (ssl : OpenSsl) (host : Host) (args : MineBlocksArgs) where
  open args use {
    sync, miner_public_key, miner_private_key, should_stop, sync_version_currently_mined,
    transaction_time, block_time, grants,
  }

  -- The block that is to be mined behind `previous`: one minting transaction, for the miner.
  unfoldable pub next_block : Block → Result Block
  next_block previous = do
    previous_block_hash ← block_hash ssl host (some previous) given
    malloc grants 24
    mint_coin_transaction ←
        transaction_create ssl host grants transaction_time given (some miner_public_key)
          (some miner_public_key) amount_generated_during_minting (some miner_private_key)
    malloc grants 16
    block_create grants block_time given (some (mint_coin_transaction ∷ [])) 0 previous_block_hash

  -- The chain with which the loop goes on, or the code with which it ends.
  unfoldable pub after_mining : Blockchain → Mined → Result Blockchain
  after_mining c (b, ok _) = blockchain_add_block grants (some c) (some b)
  after_mining c (b, err failure_could_not_find_valid_proof_of_work) = ok c
  after_mining c (b, err failure_longer_blockchain_detected) = ok c
  after_mining c (b, err failure_stopped_early) = ok c
  after_mining c (b, err code) = err code
  after_mining c (b, fault) = fault

  -- A round up to the end of the search.
  unfoldable pub search_round : Result Mined
  unfolding require_valid next_block
  search_round = do
    verdict ← blockchain_verify ssl host given (some sync.blockchain) given
    require_valid verdict
    previous_block ← get_last sync.blockchain.block_list
    block ← next_block previous_block
    ok (
        synchronized_blockchain_mine_block ssl host (some sync) block (some should_stop)
          (some sync_version_currently_mined))

  unfoldable pub mine_round : Result Blockchain
  unfolding search_round after_mining
  mine_round = do mined ← search_round; after_mining sync.blockchain mined
