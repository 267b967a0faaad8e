-- ===== src/Programs/ClientMain.antt =====
-- src/peer_discovery_client.c.
use leocoin.Prelude.{ℕ, Bool, false, Option, none, some, List, [], ◌∷◌}
use leocoin.Result.{
  Result, ok, err, fault, ◌>>=◌, ◌>>◌, Allocator, given, guard, failure_pthread_function,
  failure_invalid_command_line_args,
}
use leocoin.Endian.Memory.{Host}
use leocoin.Endian.{hton}
use leocoin.PeerDiscovery.{SockaddrIn6}
use leocoin.LinkedList.{Nodes}
use leocoin.LinkedList.Create.{linked_list_create}
use leocoin.Threads.{Thread, Round}
use leocoin.Discovery.{Discovery, Attempt}
use leocoin.Discovery.Refused.{discover_peers}
use leocoin.Programs.{CString, Process, exits, crashes, status_of, process_of, port_of}

-- What `getopt` returns for "i:", with its argument, until it returns -1.
pub data ClientOption : Type 0 where
  interval : CString → ClientOption
  unknown : ClientOption

-- What lies outside the program. `strtol` gives the 64 bits of its result, `inet_pton` the 16 bytes
-- of an address, and `in_microseconds` the product with `1e6`, a `double`, as a `uint64_t`. What the
-- rounds of the thread meet depends on the server that is asked, and on the interval.
pub record ClientProcess : Type 0 where
  pub options : List ClientOption
  pub strtol : CString → ℕ
  pub af_inet6 : ℕ
  pub inet_pton : CString → Option (List ℕ)
  pub in_microseconds : ℕ → ℕ
  pub grants : Allocator
  pub list_mutex : Bool
  pub exit_ready_cond : Bool
  pub exit_ready_mutex : Bool
  pub rounds : (server : SockaddrIn6) → (interval : ℕ) → List (Round Attempt)
  pub grants_return_code : Bool

-- `discover_peers_args_t`, as far as the command line fills it.
pub record ClientArgs : Type 0 where
  pub server : SockaddrIn6
  pub peer : SockaddrIn6
  pub communication_interval : ℕ

unfoldable pub read_interval : (strtol : CString → ℕ) → List ClientOption → ℕ → Result ℕ
read_interval strtol [] seconds = ok seconds
read_interval strtol (interval text ∷ os) seconds = read_interval strtol os (strtol text)
read_interval strtol (unknown ∷ os) seconds = err failure_invalid_command_line_args

-- The four arguments that have to be there.
unfoldable pub positional : (argv : List CString) → Result (CString × CString × CString × CString)
positional (_ ∷ server ∷ server_port ∷ peer ∷ peer_port ∷ _) =
    ok (server, server_port, peer, peer_port)
positional _ = err failure_invalid_command_line_args

abbrev pub parsed : Option (List ℕ) → Result (List ℕ)
parsed none = err failure_invalid_command_line_args
parsed (some address) = ok address

module _ (host : Host) (p : ClientProcess) where
  -- The address and the port of a socket; the other fields are 0.
  abbrev pub socket_addr : (address : List ℕ) → (port : ℕ) → SockaddrIn6
  socket_addr address port = record {
    sin6_family = p.af_inet6;
    sin6_port = hton host 2 port;
    sin6_flowinfo = 0;
    sin6_addr = address;
    sin6_scope_id = 0;
  }

  abbrev pub client_args :
      (server_address : List ℕ)
      → (server_port : CString) → (peer_address : List ℕ) → (peer_port : CString) → (seconds : ℕ)
      → ClientArgs
  client_args server_address server_port peer_address peer_port seconds = record {
    server = socket_addr server_address (port_of (p.strtol server_port));
    peer = socket_addr peer_address (port_of (p.strtol peer_port));
    communication_interval = p.in_microseconds seconds;
  }

  -- The interval is 20 seconds where no option sets it.
  unfoldable pub read_arguments : (argv : List CString) → Result ClientArgs
  unfolding positional read_interval
  read_arguments argv = do
    (server, server_port, peer, peer_port) ← positional argv
    seconds ← read_interval p.strtol p.options 20
    server_address ← parsed (p.inet_pton server)
    peer_address ← parsed (p.inet_pton peer)
    ok (client_args server_address server_port peer_address peer_port seconds)

  unfoldable pub prepare_client : Nodes → (argv : List CString) → Result ClientArgs
  unfolding read_arguments
  prepare_client nodes argv = do
    args ← read_arguments argv
    _ ← linked_list_create p.grants nodes given (some tt)
    guard p.list_mutex failure_pthread_function
    guard p.exit_ready_cond failure_pthread_function
    guard p.exit_ready_mutex failure_pthread_function
    ok args

-- The state in which the thread starts.
abbrev pub no_peers : Thread Discovery
no_peers = record { shared = record { peer_info_list = []; open_sockets = 0 }; exit_ready = false }

-- `main`, whose `argc` is the length of `argv`.
unfoldable pub client_main : Host → ClientProcess → Nodes → (argv : List CString) → Process
unfolding prepare_client discover_peers process_of status_of
client_main host p nodes argv = elim (prepare_client host p nodes argv) [
  | ok args ↦ process_of (
      discover_peers host args.peer p.grants_return_code false
        (p.rounds args.server args.communication_interval) no_peers)
  | err code ↦ exits (status_of code)
  | fault ↦ crashes
]
