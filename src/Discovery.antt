-- ===== src/Discovery.antt =====
-- src/peer_discovery_thread.c: a peer registers itself with the bootstrap server and takes its list.
pub mod Registration
pub mod Exchange
pub mod Leaks
pub mod Refused
use leocoin.Prelude.{ℕ, suc, ◌-◌, Bool, List, some}
use leocoin.Result.{ok, Allocator, guard, given, failure_network_function, failure_pthread_function}
use leocoin.Endian.Memory.{Host}
use leocoin.Networking.{
  CommandRegisterPeer, command_prefix, command_register_peer, command_send_peer_list,
}
use leocoin.Networking.Serialize.{command_register_peer_serialize}
use leocoin.Networking.Deserialize.{command_send_peer_list_deserialize}
use leocoin.Networking.Sockets.{Sent, send_all}
use leocoin.PeerDiscovery.{SockaddrIn6, PeerInfo}
use leocoin.PeerDiscovery.Deserialize.{Allocators, peer_info_list_deserialize}
use leocoin.Io.{Io, done, ◌>>=◌, ◌>>◌, of_loop, then_with}
use leocoin.Session.{Incoming, client_receive_command}

-- The list that the thread shares, and how many sockets the thread holds open.
pub record Discovery : Type 0 where
  pub peer_info_list : List PeerInfo
  pub open_sockets : ℕ

-- What the allocator, the network and the mutex answer to one attempt. The last two are of the lock
-- around the list where it is printed, and hold where it is not.
pub record Attempt : Type 0 where
  pub grants : Allocator
  pub heap : Allocators
  pub socket : Bool
  pub connect : Bool
  pub outgoing : List Sent
  pub incoming : Incoming
  pub lock : Bool
  pub unlock : Bool
  pub lock_to_print : Bool
  pub unlock_to_print : Bool

-- The registration that the thread sends for the address at which the peer listens.
abbrev pub registration_of : SockaddrIn6 → CommandRegisterPeer
registration_of peer_addr = record {
  header = record { prefix = command_prefix; command = command_register_peer; command_len = 0 };
  sin6_family = peer_addr.sin6_family;
  sin6_port = peer_addr.sin6_port;
  sin6_flowinfo = peer_addr.sin6_flowinfo;
  addr = peer_addr.sin6_addr;
  sin6_scope_id = peer_addr.sin6_scope_id;
}

module _ (host : Host) (peer_addr : SockaddrIn6) (attempt : Attempt) where
  open attempt use {
    grants, heap, socket, connect, outgoing, incoming, lock, unlock, lock_to_print, unlock_to_print,
  }

  -- From the connection to the list that arrives.
  unfoldable pub request_peers : Io (List PeerInfo)
  request_peers = do
    done (guard connect failure_network_function)
    (_, send_buf, _) ←
        done (
          command_register_peer_serialize grants host (some (registration_of peer_addr)) given
            given)
    sent ← of_loop (send_all (some send_buf) outgoing)
    (buffer, size) ← client_receive_command grants host command_send_peer_list incoming
    command ← done (command_send_peer_list_deserialize grants host given buffer size)
    done (
        peer_info_list_deserialize heap host given (some command.peer_list_data)
          command.peer_list_data_len)

  -- The calls of the mutex behind the exchange of the lists.
  abbrev pub unlock_and_print : Io (Unit {0})
  unlock_and_print = do
    done (guard unlock failure_pthread_function)
    done (guard lock_to_print failure_pthread_function)
    done (guard unlock_to_print failure_pthread_function)

  -- The socket is closed only at the end of the way without errors.
  unfoldable pub discover_peers_once : Discovery → Discovery × Io (Unit {0})
  unfolding request_peers
  discover_peers_once s = then_with s (done (guard socket failure_network_function)) λ _.
      let s1 = record s { open_sockets = suc s.open_sockets } in
      then_with s1 request_peers λ new_peer_info_list.
        then_with s1 (done (guard lock failure_pthread_function)) λ _.
          let s2 = record s1 { peer_info_list = new_peer_info_list } in
          then_with s2 unlock_and_print
            λ _. (record s2 { open_sockets = s2.open_sockets - 1 }, done (ok tt))
