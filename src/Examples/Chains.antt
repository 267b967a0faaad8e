-- ===== src/Examples/Chains.antt =====
-- The theorems on src/blockchain.c at concrete values.
use leocoin.Prelude.{
  ℕ, ◌≡◌, ◌≢◌, ◌↔◌, refl, ap, ◌∙◌, true, false, some, List, [], ◌∷◌, ◌++◌, append_assoc, append-nil,
  arith, length, length-append, length-replicate, replicate, ◌==◌,
}
use leocoin.Result.{ok, fault, given}
use leocoin.Endian.Memory.{Host, big_endian}
use leocoin.Blockchain.{Transaction, IsBlock, IsTransaction, Block, Blockchain}
use leocoin.Blockchain.Serialize.{blockchain_serialize, block_header_bytes, transaction_bytes}
use leocoin.Blockchain.Deserialize.{blockchain_deserialize}
use leocoin.Blockchain.Format.{
  transactions_bytes, block_bytes, blocks_bytes, blockchain_bytes, length-blockchain_bytes,
  length-block_bytes, length-transaction_bytes,
}
use leocoin.Blockchain.Codec.{blockchain_serialize_lem, blockchain_deserialize-serialize}
use leocoin.Blockchain.Bounds.{blockchain_deserialize_bounds}
use leocoin.Blockchain.Overread.{blockchain_deserialize_overread}
use leocoin.Verify.{valid, blockchain_verify}
use leocoin.Verify.Spec.{IsChain}
use leocoin.Verify.Correct.{blockchain_verify_iff}
use leocoin.Mining.{
  blockchain_mine_block, uint64_max, stop_code, SynchronizedBlockchain, interrupt_code,
  synchronized_blockchain_mine_block,
}
use leocoin.Mining.Search.{
  Ends, blockchain_mine_block-Ends, synchronized_blockchain_mine_block-Ends,
}
use leocoin.Examples.Data.{
  host, grants_all, heap, minting, minting-IsTransaction, genesis, genesis-IsBlock, block,
  block-IsBlock, chain, chain-IsBlockchain, ssl, ssl-HashesTo32,
}

-- A chain of the genesis block and a block with one transaction.
abbrev pub two_blocks : Block → Blockchain
two_blocks b = record { block_list = genesis ∷ b ∷ []; num_leading_zero_bytes = 3 }

-- Two headers and a transaction behind the 16 bytes of the chain.
pub length-two_blocks :
    (h : Host) (b : Block) (t : Transaction)
    → IsBlock b
    → IsTransaction t
    → b.transaction_list ≡ t ∷ []
    → length (blockchain_bytes h (two_blocks b)) ≡ 8856
length-two_blocks h b t vb vt e =
    let two : blocks_bytes h (two_blocks b).block_list
        ≡ block_bytes h genesis ++ (block_bytes h b ++ []) =
      unfold blocks_bytes in refl in
    let none_left : transactions_bytes h [] ≡ [] = unfold transactions_bytes in refl in
    let one : transactions_bytes h (t ∷ []) ≡ transaction_bytes h t ++ [] =
      unfold transactions_bytes in refl in
    omega (
      arith,
      length-blockchain_bytes h (two_blocks b),
      ap length two,
      length-append (block_bytes h genesis) (block_bytes h b ++ []),
      length-append (block_bytes h b) [],
      length-block_bytes h genesis genesis-IsBlock,
      length-block_bytes h b vb,
      ap length none_left,
      ap (λ (ts : List Transaction). length (transactions_bytes h ts)) e,
      ap length one,
      length-append (transaction_bytes h t) [],
      length-transaction_bytes h t vt,
    )

pub length-chain : (h : Host) → length (blockchain_bytes h chain) ≡ 8856
length-chain h = length-two_blocks h block minting block-IsBlock minting-IsTransaction refl

blockchain_deserialize-serialize_example :
    (bytes : List ℕ) × (blockchain_serialize grants_all host (some chain) given given
      ≡ ok (bytes, length bytes))
    × (blockchain_deserialize heap big_endian given (some (bytes ++ 1 ∷ [])) 8857 ≡ ok chain)
blockchain_deserialize-serialize_example =
    blockchain_deserialize-serialize grants_all heap host big_endian chain (1 ∷ []) 8857
      chain-IsBlockchain (omega (arith, length-chain host)) (λ _ _. refl) (λ _ _. refl)
      (omega (arith, length-chain host))

-- An empty buffer that the caller says is empty, with 512 bytes behind it.
blockchain_deserialize_bounds_example :
    blockchain_deserialize heap host given (some (replicate 512 7)) 0 ≢ fault
blockchain_deserialize_bounds_example =
    blockchain_deserialize_bounds heap host given (some (replicate 512 7)) 0 λ memory e.
      let e' : replicate 512 7 ≡ memory = cc in
      omega (arith, ap length e', length-replicate {A = ℕ} 512 7)

-- A chain of a block and a block with one transaction, which has these bytes in the array of its
-- signature.
abbrev ending : Block → Block → Transaction → List ℕ → Blockchain
ending g b t bytes =
    let t' = record t { sender_signature = record t.sender_signature { bytes = bytes } } in
    record {
      block_list = g ∷ record b { transaction_list = t' ∷ [] } ∷ [];
      num_leading_zero_bytes = 3;
    }

ending-append :
    (h : Host) (g b : Block) (t : Transaction) (front missing : List ℕ)
    → blockchain_bytes h (ending g b t (front ++ missing))
      ≡ blockchain_bytes h (ending g b t front) ++ missing
unfolding blockchain_bytes blocks_bytes block_bytes transactions_bytes transaction_bytes
    block_header_bytes
ending-append h g b t front missing = simp (append_assoc, append-nil)

abbrev cut_chain : Blockchain
cut_chain = ending genesis block minting (replicate 256 9)

chain_written :
    blockchain_serialize grants_all host (some chain) given given
    ≡ ok (blockchain_bytes host cut_chain ++ replicate 256 9, 8856)
chain_written =
    let bytes = ending-append host genesis block minting (replicate 256 9) (replicate 256 9) in
    blockchain_serialize_lem grants_all host chain chain-IsBlockchain
      (omega (arith, length-chain host)) (λ _ _. refl)
    ∙ λ i. ok (bytes i, length-chain host i)

blockchain_deserialize_overread_example :
    blockchain_deserialize heap host given
      (some (blockchain_bytes host cut_chain))
      (length (blockchain_bytes host cut_chain))
    ≡ fault
blockchain_deserialize_overread_example =
    blockchain_deserialize_overread grants_all heap host chain (genesis ∷ []) block [] minting
      (replicate 256 9) (replicate 256 9) (blockchain_bytes host cut_chain) 8856 chain-IsBlockchain
      (omega (arith, length-chain host)) (λ _ _. refl) (λ _ _. refl) refl refl refl
      (omega (arith, length-replicate {A = ℕ} 256 9))
      (omega (arith, length-replicate {A = ℕ} 256 9)) chain_written

blockchain_verify_iff_example :
    (blockchain_verify ssl host given (some chain) given ≡ ok valid)
    ↔ IsChain ssl host 3 chain.block_list
blockchain_verify_iff_example =
    blockchain_verify_iff ssl host given chain ssl-HashesTo32 (omega arith) chain-IsBlockchain

blockchain_mine_block-Ends_example :
    Ends ssl host chain
      (λ round. stop_code (round == 7))
      block
      0
      uint64_max
      (blockchain_mine_block ssl host (some chain) block (some λ round. round == 7))
blockchain_mine_block-Ends_example =
    blockchain_mine_block-Ends ssl host chain ssl-HashesTo32 (omega arith) block
      (λ round. round == 7)

abbrev sync : SynchronizedBlockchain
sync = record { blockchain = chain; locks = true; unlocks = true; version = λ round. round }

synchronized_blockchain_mine_block-Ends_example :
    Ends ssl host sync.blockchain
      (λ round. interrupt_code false (0 == round))
      block
      0
      uint64_max
      (synchronized_blockchain_mine_block ssl host
        (some sync)
        block
        (some λ _. false)
        (some λ _. 0))
synchronized_blockchain_mine_block-Ends_example =
    synchronized_blockchain_mine_block-Ends ssl host sync block (λ _. false) (λ _. 0) ssl-HashesTo32
      (omega arith) refl refl
