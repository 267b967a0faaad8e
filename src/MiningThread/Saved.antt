-- ===== src/MiningThread/Saved.antt =====
-- The output file of `mine_blocks` of src/mining_thread.c holds the chain that is mined.
use leocoin.Prelude.{ℕ, ◌^◌, ◌<◌, ◌≡◌, refl, true, none, some, List, [], ◌∷◌, ◌++◌, length}
use leocoin.Result.{ok, given, success}
use leocoin.Endian.Memory.{Host}
use leocoin.Blockchain.{Block, Blockchain, IsBlockchain}
use leocoin.Blockchain.Format.{blockchain_bytes}
use leocoin.Blockchain.Deserialize.{Heap}
use leocoin.Blockchain.Roundtrip.{Grants}
use leocoin.Networking.DataBytes.{GrantsEvery}
use leocoin.Chain.{blockchain_add_block}
use leocoin.Crypto.{OpenSsl}
use leocoin.Files.{FileAccess, blockchain_read_from_file}
use leocoin.Files.Roundtrip.{blockchain_read_from_file-write_to_file}
use leocoin.MiningThread.{search_round, after_mining}
use leocoin.MiningThread.Loop.{Turn, Miner, switch_chain, on_chain, write_outfile, mine_turn}

-- The chain with a new block.
abbrev pub with_block : Blockchain → Block → Blockchain
with_block c b = record c { block_list = c.block_list ++ b ∷ [] }

module _ (ssl : OpenSsl) (host : Host) (name : List ℕ) where
  -- A round that finds a block, in which the shared chain is not a newer one, leaves the chain with
  -- this block at its end, and the output file holds that chain: `blockchain_read_from_file` reads it
  -- back, on a host of either byte order. With the block the chain fits its types, memory is granted,
  -- and what is written and read is taken and delivered whole.
  pub mine_turn-saved :
      (t : Turn) (m : Miner) (b : Block) (heap : Heap) (reader : Host) (reading : FileAccess)
      → t.newer ≡ none
      → search_round ssl host (on_chain t.args m.blockchain) ≡ ok (b, ok tt)
      → IsBlockchain (with_block m.blockchain b)
      → GrantsEvery t.args.grants
      → Grants heap
      → length (blockchain_bytes host (with_block m.blockchain b)) < 2 ^ 64
      → t.access.opens ≡ true
      → length (blockchain_bytes host (with_block m.blockchain b)) < t.access.stops_after
      → reading.opens ≡ true
      → length (blockchain_bytes host (with_block m.blockchain b)) < reading.stops_after
      → (m' : Miner) × (mine_turn ssl host (some name) t m ≡ ok m')
        × (m'.blockchain ≡ with_block m.blockchain b)
        × (m'.return_code ≡ success)
        × (blockchain_read_from_file t.args.grants heap reader reading m'.disk given (some name)
            ≡ ok m'.blockchain)
  unfolding mine_turn after_mining blockchain_add_block write_outfile
  mine_turn-saved t m b heap reader reading same found v g all fits opens takes reopens delivers =
      let switched : switch_chain t m.blockchain ≡ ok m.blockchain =
        unfold switch_chain in rw same in
      let (disk, written, read) =
        blockchain_read_from_file-write_to_file t.args.grants heap host reader t.access reading
          m.disk (with_block m.blockchain b) name v g all fits opens takes reopens delivers in
      (
        record { blockchain = with_block m.blockchain b; return_code = success; disk = disk },
        rw (switched, found, g 16, written) refl,
        refl,
        refl,
        read,
      )
