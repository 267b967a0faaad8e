-- ===== src/Consensus/Answers.antt =====
-- What the consensus server makes of a chain that a peer sends.
use leocoin.Prelude.{
  ◌+◌, ◌%◌, ◌<◌, ◌≤◌, ◌^◌, ◌≡◌, ◌≢◌, ◌⊎◌, inl, inr, true, false, length, arith, some,
}
use leocoin.Result.{ok, null, given}
use leocoin.Endian.Memory.{Host}
use leocoin.Networking.DataBytes.{data_bytes}
use leocoin.Blockchain.{Blockchain, IsBlockchain}
use leocoin.Blockchain.Format.{blockchain_bytes}
use leocoin.Crypto.{OpenSsl}
use leocoin.Verify.{Verdict, valid, blockchain_verify}
use leocoin.Io.{done}
use leocoin.Session.Arrives.{Takes}
use leocoin.Consensus.{
  SharedChain, Request, is_valid_verdict, adopts, update_chain, handle_one_consensus_request,
}
use leocoin.Consensus.Exchange.{
  chain_header, ChainArrives, peer_chain, chosen, IsGranted, handle_one_consensus_request-chosen,
}

module _ (ssl : OpenSsl) (host : Host) (request : Request) (g : IsGranted request) where
  -- A well-formed chain that arrives, in any pieces, is verified, is longer than the server's and has
  -- the same number of zero bytes becomes the chain of the server, which counts its version on, and is
  -- sent back as it came. The chains fit their types and the command, memory is granted, and network
  -- and mutex work.
  pub handle_one_consensus_request-adopted :
      (c : Blockchain) (s : SharedChain)
      → IsBlockchain c
      → IsBlockchain s.blockchain
      → 24 + length (blockchain_bytes host c) < 2 ^ 64
      → 24 + length (blockchain_bytes host s.blockchain) < 2 ^ 64
      → ChainArrives host c request
      → blockchain_verify ssl host null (some c) given ≡ ok valid
      → length s.blockchain.block_list < length c.block_list
      → s.blockchain.num_leading_zero_bytes ≡ c.num_leading_zero_bytes
      → Takes (24 + length (blockchain_bytes host c)) request.outgoing
      → handle_one_consensus_request ssl host request s ≡ (
        record { blockchain = c; version = (s.version + 1) % 2 ^ 64 },
        done (ok (data_bytes host chain_header (blockchain_bytes host c))),
      )
  unfolding update_chain
  handle_one_consensus_request-adopted c s v w fits_c fits_s arrives verified longer same takes =
      let adopted : adopts (peer_chain host c valid) s.blockchain ≡ true = ground arith in
      let switched : chosen host c valid s
          ≡ record { blockchain = c; version = (s.version + 1) % 2 ^ 64 } =
        rw adopted in
      rw switched at (
        handle_one_consensus_request-chosen ssl host request g c valid s v w fits_c fits_s arrives
          verified (rw adopted takes))

  -- A well-formed chain that arrives, in any pieces, and is not verified, or not longer than the
  -- server's, or of another number of zero bytes, leaves the server as it was, and the server sends
  -- its own chain. `blockchain_verify` succeeds on the chain, whatever its answer is: where it ends
  -- with an error instead, as for a key that cannot be read, nothing is said here. The chains fit their
  -- types and the command, memory is granted, and network and mutex work.
  pub handle_one_consensus_request-declined :
      (c : Blockchain) (verdict : Verdict) (s : SharedChain)
      → IsBlockchain c
      → IsBlockchain s.blockchain
      → 24 + length (blockchain_bytes host c) < 2 ^ 64
      → 24 + length (blockchain_bytes host s.blockchain) < 2 ^ 64
      → ChainArrives host c request
      → blockchain_verify ssl host null (some c) given ≡ ok verdict
      → (is_valid_verdict verdict ≡ false)
        ⊎ ((length c.block_list ≤ length s.blockchain.block_list)
            ⊎ (s.blockchain.num_leading_zero_bytes ≢ c.num_leading_zero_bytes))
      → Takes (24 + length (blockchain_bytes host s.blockchain)) request.outgoing
      → handle_one_consensus_request ssl host request s
        ≡ (s, done (ok (data_bytes host chain_header (blockchain_bytes host s.blockchain))))
  unfolding update_chain
  handle_one_consensus_request-declined c verdict s v w fits_c fits_s arrives verified reason
        takes =
      let declined : adopts (peer_chain host c verdict) s.blockchain ≡ false = elim reason [
        | inl bad ↦ rw bad
        | inr (inl short) ↦ ground arith
        | inr (inr other) ↦ ground arith
      ] in
      let kept : chosen host c verdict s ≡ s = rw declined in
      rw kept at (
        handle_one_consensus_request-chosen ssl host request g c verdict s v w fits_c fits_s arrives
          verified (rw declined takes))
