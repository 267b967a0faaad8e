-- ===== src/Consensus/Keeps.antt =====
-- What requests can do to the shared chain.
use mathlib.Core.Path.{subst}
use leocoin.Prelude.{
  ◌+◌, ◌%◌, ◌≤◌, ◌<◌, ◌^◌, ◌≡◌, ◌⊎◌, refl, true, some, length, arith, Bool-cases, inl, inr,
}
use leocoin.Result.{ok, null, given}
use leocoin.Endian.Memory.{Host}
use leocoin.Blockchain.{Blockchain}
use leocoin.Blockchain.Deserialize.{blockchain_deserialize}
use leocoin.Networking.{command_send_blockchain}
use leocoin.Networking.Deserialize.{command_send_blockchain_deserialize}
use leocoin.Session.{server_receive_command}
use leocoin.Crypto.{OpenSsl}
use leocoin.Verify.{Verdict, valid, invalid, blockchain_verify}
use leocoin.Io.{Io, done, Ensures, Ensures-done, Ensures-bind, then_with-Ensures}
use leocoin.Consensus.{
  SharedChain, Request, PeerChain, is_valid_verdict, adopts, update_chain, read_peer_chain,
  handle_one_consensus_request,
}

module _ (ssl : OpenSsl) (host : Host) where
  abbrev pub IsVerified : Blockchain → Type 0
  IsVerified c = blockchain_verify ssl host null (some c) given ≡ ok valid

  -- A request leaves the shared chain, or puts a verified longer chain of the same difficulty in its
  -- place and counts the version on.
  pub data Update (s s' : SharedChain) : Type 0 where
    kept : s' ≡ s → Update s s'
    switched :
        (peer : Blockchain)
        → IsVerified peer
        → length s.blockchain.block_list < length peer.block_list
        → peer.num_leading_zero_bytes ≡ s.blockchain.num_leading_zero_bytes
        → s' ≡ record { blockchain = peer; version = (s.version + 1) % 2 ^ 64 }
        → Update s s'

  -- A chain that counts as valid has been verified.
  abbrev IsSound : PeerChain → Type 0
  IsSound p = p.is_valid ≡ true → IsVerified p.peer_blockchain

  verdict-IsVerified :
      (peer : Blockchain) (verdict : Verdict)
      → ◌≡◌ {A = Io Verdict}
          (done (blockchain_verify ssl host null (some peer) given))
          (done (ok verdict))
      → is_valid_verdict verdict ≡ true
      → IsVerified peer
  verdict-IsVerified peer valid e t = cc
  verdict-IsVerified peer (invalid b) e t = absurd (cc)

  read_peer_chain-IsSound : (request : Request) → Ensures IsSound (read_peer_chain ssl host request)
  unfolding read_peer_chain
  read_peer_chain-IsSound request =
      let received =
        server_receive_command request.grants host command_send_blockchain request.incoming in
      Ensures-bind IsSound received _ λ (buffer, size) _.
        let read = command_send_blockchain_deserialize request.grants host given buffer size in
        Ensures-bind IsSound (done read) _ λ command _.
          let data' = some command.blockchain_data in
          let parsed =
            blockchain_deserialize request.heap host given data' command.blockchain_data_len in
          Ensures-bind IsSound (done parsed) _ λ peer _.
            Ensures-bind IsSound (done (blockchain_verify ssl host null (some peer) given)) _
              λ verdict e.
                let p : PeerChain = record {
                  command = command;
                  peer_blockchain = peer;
                  is_valid = is_valid_verdict verdict;
                } in
                Ensures-done IsSound (ok p) λ q same.
                  let p≡q : p ≡ q = cc in subst IsSound p≡q (verdict-IsVerified peer verdict e)

  update_chain-Update :
      (p : PeerChain) (s : SharedChain)
      → (p.is_valid ≡ true → IsVerified p.peer_blockchain)
      → Update s (update_chain p s)
  unfolding update_chain
  update_chain-Update p s v = elim (Bool-cases (adopts p s.blockchain)) [
    | inl yes' ↦
        rw yes' (switched p.peer_blockchain (v (ground arith)) (ground arith) (ground arith) refl)
    | inr no' ↦ rw no' (kept refl)
  ]

  -- Whatever arrives, and however the handler ends, it leaves the shared chain as it was or puts a
  -- verified chain in its place that is longer and has the same number of zero bytes, and then counts
  -- the version on.
  pub handle_one_consensus_request-Update :
      (request : Request) (s : SharedChain)
      → Update s (handle_one_consensus_request ssl host request s).0
  unfolding handle_one_consensus_request
  handle_one_consensus_request-Update request s =
      then_with-Ensures IsSound (Update s) s _ _ (read_peer_chain-IsSound request) (kept refl)
        λ p v.
          then_with-Ensures (λ _. Unit {0}) (Update s) s _ _ (Ensures-done _ _ λ _ _. tt)
            (kept refl) λ _ _. update_chain-Update p s v

  -- What no request can break.
  pub record IsLater (s s' : SharedChain) : Type 0 where
    pub difficulty : s'.blockchain.num_leading_zero_bytes ≡ s.blockchain.num_leading_zero_bytes
    pub longer : length s.blockchain.block_list ≤ length s'.blockchain.block_list
    pub changed :
        (s' ≡ s)
        ⊎ ((length s.blockchain.block_list < length s'.blockchain.block_list)
            × IsVerified s'.blockchain)

  pub IsLater-refl : (s : SharedChain) → IsLater s s
  IsLater-refl s = record { difficulty = refl; longer = omega arith; changed = inl refl }
