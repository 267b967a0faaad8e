-- ===== src/Bootstrap.antt =====
-- src/peer_discovery_bootstrap_server_thread.c: the handler of one registration, on the list of peers.
pub mod Registers
pub mod Answers
pub mod Distinct
pub mod Dangling
pub mod Current
pub mod Sends
pub mod Server
pub mod Nodes
use leocoin.Prelude.{
  ℕ, ◌+◌, ◌-◌, ◌%◌, ◌^◌, Bool, true, false, List, [], ◌∷◌, length, some, reverse, if◌then◌else◌,
}
use leocoin.Result.{
  Result, ok, err, fault, Allocator, given, failure_network_function, failure_could_not_malloc,
}
use leocoin.Endian.Memory.{Host}
use leocoin.Networking.{
  CommandHeader, CommandRegisterPeer, command_prefix, command_register_peer, command_send_peer_list,
}
use leocoin.Networking.Serialize.{command_send_peer_list_serialize}
use leocoin.Networking.Deserialize.{command_register_peer_deserialize}
use leocoin.Networking.Sockets.{Sent, send_all}
use leocoin.PeerDiscovery.{PeerInfo, compare_peer_info_t}
use leocoin.PeerDiscovery.Serialize.{peer_info_list_serialize}
use leocoin.Io.{Io, done, ◌>>=◌, ◌>>◌, of_loop, or_network, then_with}
use leocoin.Session.{Incoming, server_receive_command}

-- What the `data` of a node of the list points to: a peer, or memory that was freed.
pub data Entry : Type 0 where
  live : PeerInfo → Entry
  freed : Entry

-- What the allocator, the connection, the clock and the mutex answer while a request is handled. The
-- `malloc` of the peer and that of its node are apart from the others. `announced` and `removed` tell
-- whether the names that are printed of a peer are found, as also where nothing is printed; `removed`
-- is told how many nodes are behind the peer.
pub record Request : Type 0 where
  pub grants : Allocator
  pub grants_peer_info : Bool
  pub grants_node : Bool
  pub incoming : Incoming
  pub outgoing : List Sent
  pub connected_at : ℕ
  pub current_time : ℕ
  pub announced : Bool
  pub removed : ℕ → Bool
  pub lock : Result (Unit {0})
  pub unlock : Result (Unit {0})

-- The peer that a registration announces.
abbrev pub peer_info_of : CommandRegisterPeer → (last_connected : ℕ) → PeerInfo
peer_info_of c last_connected = record {
  listen_addr = record {
    sin6_family = c.sin6_family;
    sin6_port = c.sin6_port;
    sin6_flowinfo = c.sin6_flowinfo;
    sin6_addr = c.addr;
    sin6_scope_id = c.sin6_scope_id;
  };
  last_connected = last_connected;
}

-- The header of the answer, which is zero but for the prefix and the command.
abbrev pub list_header : CommandHeader
list_header = record { prefix = command_prefix; command = command_send_peer_list; command_len = 0 }

-- `current_time - peer->last_connected`, a difference of `time_t`, by its 64 bits.
abbrev pub since : (current_time : ℕ) → PeerInfo → ℕ
since current_time p = (current_time + (2 ^ 64 - p.last_connected)) % 2 ^ 64

module _ (host : Host) (p : PeerInfo) where
  -- Whether `linked_list_find` finds a node with the address of the peer; the first one is it.
  unfoldable pub find_peer : List Entry → Result Bool
  find_peer [] = ok false
  find_peer (freed ∷ es) = fault
  find_peer (live q ∷ es) =
      let rest = find_peer es in
      if compare_peer_info_t host (some p) (some q) then ok true else rest

  -- `found_peer_info->last_connected = peer_info->last_connected;`
  unfoldable pub update_found : List Entry → List Entry
  update_found [] = []
  update_found (freed ∷ es) = freed ∷ es
  update_found (live q ∷ es) =
      let rest = update_found es in
      if compare_peer_info_t host (some p) (some q)
      then live (record q { last_connected = p.last_connected }) ∷ es
      else live q ∷ rest

abbrev pub announce : Bool → Result (Unit {0})
announce true = ok tt
announce false = err failure_network_function

-- The new node. Where the names of the peer are not found, the peer is freed, and its node is kept.
abbrev pub prepend_peer : Request → PeerInfo → List Entry → List Entry × Result (Unit {0})
prepend_peer request p es =
    if request.grants_node
    then ((if request.announced then live p else freed) ∷ es, announce request.announced)
    else (es, err failure_could_not_malloc)

-- From the search for the peer to its node.
unfoldable pub register_peer :
    Host → Request → PeerInfo → List Entry → List Entry × Result (Unit {0})
unfolding find_peer update_found
register_peer host request p es = elim (find_peer host p es) [
  | ok true ↦ (update_found host p es, announce request.announced)
  | ok false ↦ prepend_peer request p es
  | err code ↦ (es, err code)
  | fault ↦ (es, fault)
]

-- The list whose first nodes are these, the last one first.
abbrev pub linked_behind : List PeerInfo → List Entry → List Entry
linked_behind [] es = es
linked_behind (p ∷ kept) es = linked_behind kept (live p ∷ es)

-- The loop that takes expired peers off the list: `kept` are the nodes up to `prev`, the last one
-- first, and the entries those from `node` on. The result is what is left, or why the loop stopped.
unfoldable pub remove_expired :
    (peer_expired : PeerInfo → Bool)
    → (removed : ℕ → Bool) → (kept : List PeerInfo) → List Entry
    → List Entry × Result (List PeerInfo)
remove_expired peer_expired removed kept [] = (linked_behind kept [], ok (reverse kept))
remove_expired peer_expired removed kept (freed ∷ es) = (linked_behind kept (freed ∷ es), fault)
remove_expired peer_expired removed kept (live p ∷ es) =
    let unlinked = remove_expired peer_expired removed kept es in
    let next = remove_expired peer_expired removed (p ∷ kept) es in
    if peer_expired p
    then (if removed (length es)
        then unlinked
        else (linked_behind kept es, err failure_network_function))
    else next

-- `exceeds` is the comparison of a difference in seconds with `keepalive / 1e6`, in `double`.
module _ (exceeds : (seconds : ℕ) → (keepalive : ℕ) → Bool) (keepalive : ℕ) where
  abbrev pub peer_expired : (current_time : ℕ) → PeerInfo → Bool
  peer_expired current_time p = exceeds (since current_time p) keepalive

  module _ (host : Host) (request : Request) where
    open request use {
      grants, grants_peer_info, incoming, outgoing, connected_at, current_time, removed, lock,
      unlock,
    }

    -- The `malloc` of the peer, whose result is written through unchecked.
    unfoldable pub read_registration : Io PeerInfo
    read_registration = do
      (buffer, size) ← server_receive_command grants host command_register_peer incoming
      c ← done (command_register_peer_deserialize host given buffer size)
      done (if grants_peer_info then ok (peer_info_of c connected_at) else fault)

    -- The list and the answer, which are made of the peers that are left.
    unfoldable pub send_peer_list : List PeerInfo → Io (List ℕ)
    send_peer_list ps = do
      (bytes, size) ← done (peer_info_list_serialize grants host (some ps) given given)
      done unlock
      (_, send_buf, _) ← done (
          command_send_peer_list_serialize grants host
            (some
              (record { header = list_header; peer_list_data_len = size; peer_list_data = bytes }))
            given given)
      or_network (of_loop (send_all (some send_buf) outgoing))

    -- The list as the handler leaves it, and what it has sent.
    unfoldable pub handle_one_peer_discovery_request : List Entry → List Entry × Io (List ℕ)
    unfolding read_registration register_peer remove_expired send_peer_list
    handle_one_peer_discovery_request es = then_with es read_registration λ p.
        then_with es (done lock) λ _.
          let registered = register_peer host request p es in
          then_with registered.0 (done registered.1) λ _.
            let left = remove_expired (peer_expired current_time) removed [] registered.0 in
            then_with left.0 (done left.1) λ ps. (left.0, send_peer_list ps)
