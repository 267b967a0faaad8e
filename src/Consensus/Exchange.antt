-- ===== src/Consensus/Exchange.antt =====
-- A chain that a peer sends, from its bytes to the answer.
use leocoin.Prelude.{
  ◌+◌, ◌<◌, ◌^◌, ◌≡◌, refl, sym, [], ◌++◌, append-nil, length, length-append, arith, some,
  Bool-cases, inl, inr,
}
use leocoin.Result.{ok, null, given}
use leocoin.Endian.Memory.{Host}
use leocoin.Buffer.{put_u64}
use leocoin.Buffer.Laws.{length-put_u64}
use leocoin.Networking.{CommandHeader, IsHeader, command_prefix, command_send_blockchain}
use leocoin.Networking.Serialize.{with_len}
use leocoin.Networking.DataBytes.{
  GrantsEvery, granted-IsSendable, data_bytes, length-data_bytes, sent_header, sent_header-IsHeader,
  command_send_blockchain_serialize_lem, command_send_blockchain_deserialize_lem,
}
use leocoin.Blockchain.{Blockchain, IsBlockchain}
use leocoin.Blockchain.Format.{blockchain_bytes}
use leocoin.Blockchain.Roundtrip.{Grants}
use leocoin.Blockchain.Codec.{blockchain_serialize_lem, blockchain_deserialize_lem}
use leocoin.Crypto.{OpenSsl}
use leocoin.Verify.{Verdict, blockchain_verify}
use leocoin.Io.{done}
use leocoin.Session.Arrives.{Arrives, Takes, send_all-Takes, server_receive_command-Arrives}
use leocoin.Consensus.{
  Request, PeerChain, is_valid_verdict, adopts, update_chain, SharedChain, read_peer_chain,
  send_chain, handle_one_consensus_request,
}

-- The header of a chain that is sent, but for the length, which the serializer sets.
abbrev pub chain_header : CommandHeader
chain_header = record {
  prefix = command_prefix;
  command = command_send_blockchain;
  command_len = 0;
}

chain_header-IsHeader : IsHeader chain_header
chain_header-IsHeader = record { prefix = refl; command = omega arith; command_len = omega arith }

module _ (host : Host) (c : Blockchain) where
  -- The chain, as it arrives at the server.
  abbrev pub ChainArrives : Request → Type 0
  ChainArrives request =
      let body = blockchain_bytes host c in
      Arrives host (with_len chain_header (8 + length body)) (put_u64 host (length body) ++ body)
        request.incoming

  -- What the server knows of it then.
  abbrev pub peer_chain : Verdict → PeerChain
  peer_chain verdict = record {
    command = record {
      header = with_len chain_header (8 + length (blockchain_bytes host c));
      blockchain_data_len = length (blockchain_bytes host c);
      blockchain_data = blockchain_bytes host c;
    };
    peer_blockchain = c;
    is_valid = is_valid_verdict verdict;
  }

-- The chain of the server after a peer's chain of that verdict.
abbrev pub chosen : Host → Blockchain → Verdict → SharedChain → SharedChain
chosen host c verdict s = update_chain (peer_chain host c verdict) s

-- A request during which memory is granted and the mutex works.
pub record IsGranted (request : Request) : Type 0 where
  pub grants : GrantsEvery request.grants
  pub heap : Grants request.heap
  pub lock : request.lock ≡ ok tt
  pub unlock : request.unlock ≡ ok tt

module _ (ssl : OpenSsl) (host : Host) (request : Request) (g : IsGranted request) where
  read_peer_chain-Arrives :
      (c : Blockchain) (verdict : Verdict)
      → IsBlockchain c
      → 24 + length (blockchain_bytes host c) < 2 ^ 64
      → ChainArrives host c request
      → blockchain_verify ssl host null (some c) given ≡ ok verdict
      → read_peer_chain ssl host request ≡ done (ok (peer_chain host c verdict))
  unfolding read_peer_chain data_bytes
  read_peer_chain-Arrives c verdict v fits arrives verified =
      let h = chain_header in
      let body = blockchain_bytes host c in
      let rest = put_u64 host (length body) ++ body in
      let size : length rest ≡ 8 + length body = omega (
        arith,
        length-append (put_u64 host (length body)) body,
        length-put_u64 host (length body),
      ) in
      let sendable = granted-IsSendable request.grants h body g.grants chain_header-IsHeader fits in
      let received =
        server_receive_command-Arrives request.grants host (sent_header host h body sendable) rest
          request.incoming arrives (sent_header-IsHeader host h body sendable) (sym size)
          (g.grants 16) (g.grants (16 + length rest)) (omega (arith, size)) in
      let read = rw append-nil at (
        command_send_blockchain_deserialize_lem host h body sendable [] (16 + length rest) refl
          (omega (arith, size))) in
      let parsed = rw append-nil at (
        blockchain_deserialize_lem request.heap host host c [] (length body) v g.heap
          (omega arith)) in
      rw (received, read, parsed, verified)

  send_chain_lem :
      (c ours : Blockchain) (verdict : Verdict)
      → IsBlockchain ours
      → 24 + length (blockchain_bytes host c) < 2 ^ 64
      → 24 + length (blockchain_bytes host ours) < 2 ^ 64
      → Takes (24 + length (blockchain_bytes host ours)) request.outgoing
      → send_chain ssl host request (peer_chain host c verdict).command ours
        ≡ done (ok (data_bytes host chain_header (blockchain_bytes host ours)))
  unfolding send_chain data_bytes
  send_chain_lem c ours verdict v fits_c fits takes =
      let h = (peer_chain host c verdict).command.header in
      let body = blockchain_bytes host ours in
      let v' : IsHeader h = record {
        prefix = refl;
        command = omega arith;
        command_len = omega (arith, fits_c);
      } in
      let sendable = granted-IsSendable request.grants h body g.grants v' fits in
      let sent =
        send_all-Takes (data_bytes host h body) (24 + length body) request.outgoing
          (length-data_bytes host h body) takes in
      rw (
        blockchain_serialize_lem request.grants host ours v (omega arith) (λ n _. g.grants n),
        g.unlock,
        command_send_blockchain_serialize_lem host h body sendable refl,
        sent,
      )

  -- What holds of both chains holds of the one that is chosen.
  chosen-either :
      (c : Blockchain) (verdict : Verdict) (s : SharedChain)
      → (P : Blockchain → Type 0) → P c
      → P s.blockchain
      → P (chosen host c verdict s).blockchain
  unfolding update_chain
  chosen-either c verdict s P v w =
      elim (Bool-cases (adopts (peer_chain host c verdict) s.blockchain)) [
        | inl e ↦ rw e v
        | inr e ↦ rw e w
      ]

  pub handle_one_consensus_request-chosen :
      (c : Blockchain) (verdict : Verdict) (s : SharedChain)
      → IsBlockchain c
      → IsBlockchain s.blockchain
      → 24 + length (blockchain_bytes host c) < 2 ^ 64
      → 24 + length (blockchain_bytes host s.blockchain) < 2 ^ 64
      → ChainArrives host c request
      → blockchain_verify ssl host null (some c) given ≡ ok verdict
      → Takes
          (24 + length (blockchain_bytes host (chosen host c verdict s).blockchain))
          request.outgoing
      → handle_one_consensus_request ssl host request s ≡ (
        chosen host c verdict s,
        done (
            ok (
              data_bytes host chain_header
                (blockchain_bytes host (chosen host c verdict s).blockchain))),
      )
  unfolding handle_one_consensus_request
  handle_one_consensus_request-chosen c verdict s v w fits_c fits_s arrives verified takes =
      let s' = chosen host c verdict s in
      let fits : 24 + length (blockchain_bytes host s'.blockchain) < 2 ^ 64 =
        chosen-either c verdict s
          (λ (b : Blockchain). 24 + length (blockchain_bytes host b) < 2 ^ 64) fits_c fits_s in
      let v' = chosen-either c verdict s IsBlockchain v w in
      rw (
        read_peer_chain-Arrives c verdict v fits_c arrives verified,
        g.lock,
        send_chain_lem c s'.blockchain verdict v' fits_c fits takes,
      )
