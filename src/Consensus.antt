-- ===== src/Consensus.antt =====
-- src/consensus_peer_server_thread.c: the handler of one request, on the chain that the server shares
-- with the mining thread.
pub mod Keeps
pub mod Server
pub mod Exchange
pub mod Answers
use leocoin.Prelude.{
  ℕ, ◌+◌, ◌%◌, ◌^◌, Bool, true, false, ◌&&◌, ◌==◌, ltb, List, length, some, if◌then◌else◌,
}
use leocoin.Result.{
  err, fault, Pointer, non_null, failure_invalid_input, Result, ok, Allocator, Out, null, given,
}
use leocoin.Endian.Memory.{Host}
use leocoin.Networking.{CommandSendBlockchain, command_send_blockchain}
use leocoin.Networking.Serialize.{command_send_blockchain_serialize}
use leocoin.Networking.Deserialize.{command_send_blockchain_deserialize}
use leocoin.Networking.Sockets.{Sent, send_all}
use leocoin.Blockchain.{Blockchain}
use leocoin.Blockchain.Serialize.{blockchain_serialize}
use leocoin.Blockchain.Deserialize.{Heap, blockchain_deserialize}
use leocoin.Crypto.{OpenSsl}
use leocoin.Verify.{Verdict, valid, invalid, blockchain_verify}
use leocoin.Io.{Io, done, ◌>>=◌, ◌>>◌, of_loop, or_network, then_with}
use leocoin.Session.{Incoming, server_receive_command}

-- `synchronized_blockchain_t`, as it stands while no other thread writes it.
pub record SharedChain : Type 0 where
  pub blockchain : Blockchain
  pub version : ℕ

-- The checks of its arguments.
abbrev pub new_chain : Out → Pointer Blockchain → Result Blockchain
new_chain null _ = err failure_invalid_input
new_chain given initial_blockchain = non_null initial_blockchain

-- `synchronized_blockchain_create`, whose `malloc` is written through unchecked.
unfoldable pub synchronized_blockchain_create :
    (granted : Bool) → Out → Pointer Blockchain → Result SharedChain
synchronized_blockchain_create granted sync initial_blockchain =
    elim (new_chain sync initial_blockchain) [
      | ok c ↦ if granted then ok (record { blockchain = c; version = 0 }) else fault
      | err code ↦ err code
      | fault ↦ fault
    ]

-- What the allocator, the connection and the mutex answer while a request is handled. An error of
-- the mutex is the code that it is read as.
pub record Request : Type 0 where
  pub grants : Allocator
  pub heap : Heap
  pub incoming : Incoming
  pub outgoing : List Sent
  pub lock : Result (Unit {0})
  pub unlock : Result (Unit {0})

-- What is known of the peer's chain before the mutex is locked.
pub record PeerChain : Type 0 where
  pub command : CommandSendBlockchain
  pub peer_blockchain : Blockchain
  pub is_valid : Bool

abbrev pub is_valid_verdict : Verdict → Bool
is_valid_verdict valid = true
is_valid_verdict (invalid _) = false

-- The chain with which the server goes on.
abbrev pub adopts : PeerChain → Blockchain → Bool
adopts p ours =
    p.is_valid
    && (ltb (length ours.block_list) (length p.peer_blockchain.block_list)
        && (ours.num_leading_zero_bytes == p.peer_blockchain.num_leading_zero_bytes))

-- `args->sync->blockchain = peer_blockchain; atomic_fetch_add(&args->sync->version, 1);`
abbrev pub switch_to : Blockchain → SharedChain → SharedChain
switch_to peer s = record { blockchain = peer; version = (s.version + 1) % 2 ^ 64 }

unfoldable pub update_chain : PeerChain → SharedChain → SharedChain
update_chain p s = if adopts p s.blockchain then switch_to p.peer_blockchain s else s

module _ (ssl : OpenSsl) (host : Host) (request : Request) where
  open request use {grants, heap, incoming, outgoing, lock, unlock}

  unfoldable pub read_peer_chain : Io PeerChain
  read_peer_chain = do
    (buffer, size) ← server_receive_command grants host command_send_blockchain incoming
    command ← done (command_send_blockchain_deserialize grants host given buffer size)
    peer ← done (
        blockchain_deserialize heap host given (some command.blockchain_data)
          command.blockchain_data_len)
    verdict ← done (blockchain_verify ssl host null (some peer) given)
    done (
        ok (record {
          command = command;
          peer_blockchain = peer;
          is_valid = is_valid_verdict verdict;
        }))

  -- The answer to the peer: the chain that the server now has, in the command that it received.
  unfoldable pub send_chain : CommandSendBlockchain → Blockchain → Io (List ℕ)
  send_chain command ours = do
    (bytes, size) ← done (blockchain_serialize grants host (some ours) given given)
    done unlock
    (_, send_buf, _) ← done (
        command_send_blockchain_serialize grants host
          (some (record command { blockchain_data = bytes; blockchain_data_len = size })) given
          given)
    or_network (of_loop (send_all (some send_buf) outgoing))

  -- The shared chain as the handler leaves it, and what it has sent.
  unfoldable pub handle_one_consensus_request : SharedChain → SharedChain × Io (List ℕ)
  unfolding read_peer_chain update_chain send_chain
  handle_one_consensus_request s = then_with s read_peer_chain λ p.
      then_with s (done lock)
        λ _. let s' = update_chain p s in (s', send_chain p.command s'.blockchain)
