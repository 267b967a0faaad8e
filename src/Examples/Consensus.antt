-- ===== src/Examples/Consensus.antt =====
-- The theorems on src/consensus_peer_server_thread.c at concrete values.
use leocoin.Prelude.{
  ℕ, ◌+◌, ◌≡◌, ◌<◌, ◌%◌, ◌^◌, refl, ap, true, false, some, List, [], ◌∷◌, length, length-replicate,
  replicate, arith, ◌++◌, length-append, none, inl, inr,
}
use leocoin.Result.{ok, null, given}
use leocoin.Blockchain.{Blockchain, IsBlockchain}
use leocoin.Blockchain.Format.{
  blockchain_bytes, blocks_bytes, length-blockchain_bytes, block_bytes, length-block_bytes,
  transactions_bytes,
}
use leocoin.Verify.{valid, blockchain_verify}
use leocoin.Verify.Spec.{IsChain, IsSigned}
use leocoin.Verify.Correct.{blockchain_verify_iff}
use leocoin.Transaction.{transaction_verify_signature}
use leocoin.Buffer.{put_u64}
use leocoin.Buffer.Laws.{length-put_u64}
use leocoin.Networking.Serialize.{with_len}
use leocoin.Networking.DataBytes.{data_bytes}
use leocoin.Networking.Sockets.{sent}
use leocoin.Io.{done}
use leocoin.Consensus.{SharedChain, Request, handle_one_consensus_request}
use leocoin.Consensus.Keeps.{Update, handle_one_consensus_request-Update}
use leocoin.Consensus.Exchange.{chain_header, ChainArrives, IsGranted}
use leocoin.Consensus.Answers.{
  handle_one_consensus_request-adopted, handle_one_consensus_request-declined,
}
use leocoin.Examples.Session.{whole, whole-Arrives, at_once-Takes}
use leocoin.Examples.Data.{
  host, grants_all, heap, minting, genesis, genesis-IsBlock, chain, chain-IsBlockchain, ssl,
  ssl-HashesTo32,
}
use leocoin.Examples.Chains.{length-chain}

signed : IsSigned ssl host minting
unfolding transaction_verify_signature leocoin.Transaction.bytes_at leocoin.Prelude.split_at?
signed = refl

chain-IsChain : IsChain ssl host 3 chain.block_list
chain-IsChain = (
  record { empty = refl; proof = refl; unlinked = refl },
  (
    record {
      proof = (replicate 29 0, refl);
      linked = refl;
      minted = record {
        minting = minting;
        others = [];
        first = refl;
        amount = refl;
        to_self = refl;
      };
      signed = (signed, tt);
    },
    tt,
  ),
)

chain-valid : blockchain_verify ssl host null (some chain) given ≡ ok valid
chain-valid =
    (blockchain_verify_iff ssl host null chain ssl-HashesTo32 (omega arith) chain-IsBlockchain).1
      chain-IsChain

abbrev pub start : Blockchain
start = record { block_list = genesis ∷ []; num_leading_zero_bytes = 3 }

start-IsBlockchain : IsBlockchain start
start-IsBlockchain = record {
  block_list = (genesis-IsBlock, tt);
  num_blocks = omega arith;
  num_leading_zero_bytes = omega arith;
}

length-start : length (blockchain_bytes host start) ≡ 72
length-start =
    let one : blocks_bytes host start.block_list ≡ block_bytes host genesis ++ [] =
      unfold blocks_bytes in refl in
    let none_left : transactions_bytes host [] ≡ [] = unfold transactions_bytes in refl in
    omega (
      arith,
      length-blockchain_bytes host start,
      ap length one,
      length-append (block_bytes host genesis) [],
      length-block_bytes host genesis genesis-IsBlock,
      ap length none_left,
    )

-- A request with a chain, and what the socket takes of the answer.
abbrev pub carrying : Blockchain → ℕ → Request
carrying c n =
    let body = blockchain_bytes host c in
    record {
      grants = grants_all;
      heap = heap;
      incoming =
          whole host (with_len chain_header (8 + length body)) (put_u64 host (length body) ++ body);
      outgoing = sent n ∷ [];
      lock = ok tt;
      unlock = ok tt;
    }

carrying-IsGranted : (c : Blockchain) (n : ℕ) → IsGranted (carrying c n)
carrying-IsGranted c n = record {
  grants = λ _. refl;
  heap = λ _ _. refl;
  lock = refl;
  unlock = refl;
}

carrying-ChainArrives :
    (c : Blockchain) (n : ℕ)
    → length (blockchain_bytes host c) < 10000
    → ChainArrives host c (carrying c n)
carrying-ChainArrives c n fits =
    let body = blockchain_bytes host c in
    whole-Arrives host (with_len chain_header (8 + length body))
      (put_u64 host (length body) ++ body)
      (omega
        (arith, length-append (put_u64 host (length body)) body, length-put_u64 host (length body)))

abbrev pub ours : Blockchain → SharedChain
ours c = record { blockchain = c; version = 4 }

handle_one_consensus_request-adopted_example :
    handle_one_consensus_request ssl host (carrying chain 8880) (ours start) ≡ (
      record { blockchain = chain; version = 5 },
      done (ok (data_bytes host chain_header (blockchain_bytes host chain))),
    )
handle_one_consensus_request-adopted_example =
    handle_one_consensus_request-adopted ssl host (carrying chain 8880)
      (carrying-IsGranted chain 8880) chain (ours start) chain-IsBlockchain start-IsBlockchain
      (omega (arith, length-chain host)) (omega (arith, length-start))
      (carrying-ChainArrives chain 8880 (omega (arith, length-chain host))) chain-valid
      (omega arith) refl (rw (length-chain host) (at_once-Takes 8880 (omega arith)))

pub chain_adopted : handle_one_consensus_request ssl host (carrying chain 8880) (ours start) ≡ (
  record { blockchain = chain; version = 5 },
  done (ok (data_bytes host chain_header (blockchain_bytes host chain))),
)
chain_adopted =
    handle_one_consensus_request-adopted ssl host (carrying chain 8880)
      (carrying-IsGranted chain 8880) chain (ours start) chain-IsBlockchain start-IsBlockchain
      (omega (arith, length-chain host)) (omega (arith, length-start))
      (carrying-ChainArrives chain 8880 (omega (arith, length-chain host))) chain-valid
      (omega arith) refl (rw (length-chain host) (at_once-Takes 8880 (omega arith)))

start-valid : blockchain_verify ssl host null (some start) given ≡ ok valid
start-valid =
    (blockchain_verify_iff ssl host null start ssl-HashesTo32 (omega arith) start-IsBlockchain).1
      (record { empty = refl; proof = refl; unlinked = refl }, tt)

-- The other way round the peer's chain is too short.
handle_one_consensus_request-declined_example :
    handle_one_consensus_request ssl host (carrying start 8880) (ours chain)
    ≡ (ours chain, done (ok (data_bytes host chain_header (blockchain_bytes host chain))))
handle_one_consensus_request-declined_example =
    handle_one_consensus_request-declined ssl host (carrying start 8880)
      (carrying-IsGranted start 8880) start valid (ours chain) start-IsBlockchain chain-IsBlockchain
      (omega (arith, length-start)) (omega (arith, length-chain host))
      (carrying-ChainArrives start 8880 (omega (arith, length-start))) start-valid
      (inr (inl (omega arith))) (rw (length-chain host) (at_once-Takes 8880 (omega arith)))

handle_one_consensus_request-Update_example :
    Update ssl host
      (ours start)
      (handle_one_consensus_request ssl host (carrying chain 8880) (ours start)).0
handle_one_consensus_request-Update_example =
    handle_one_consensus_request-Update ssl host (carrying chain 8880) (ours start)
