-- ===== src/Programs/ServerMain.antt =====
-- src/peer_discovery_bootstrap_server.c.
use leocoin.Prelude.{ℕ, ◌*◌, Bool, false, List, [], ◌∷◌, some, replicate}
use leocoin.Result.{
  Result, ok, err, fault, ◌>>=◌, ◌>>◌, Allocator, given, guard, failure_pthread_function,
  failure_invalid_command_line_args,
}
use leocoin.Endian.Memory.{Host}
use leocoin.Endian.{hton}
use leocoin.PeerDiscovery.{SockaddrIn6}
use leocoin.LinkedList.{Nodes}
use leocoin.LinkedList.Create.{linked_list_create}
use leocoin.Threads.{Thread, Listener, Poll, Round}
use leocoin.Bootstrap.{Entry, Request}
use leocoin.Bootstrap.Server.{handle_peer_discovery_requests}
use leocoin.Programs.{CString, Process, exits, crashes, status_of, exit_of, process_of, port_of}

-- What lies outside the program. `strtol` gives the 64 bits of its result, and `listener` what the
-- socket answers that is bound to an address.
pub record ServerProcess : Type 0 where
  pub strtol : CString → ℕ
  pub af_inet6 : ℕ
  pub exceeds : ℕ → ℕ → Bool
  pub grants : Allocator
  pub list_mutex : Bool
  pub exit_ready_cond : Bool
  pub exit_ready_mutex : Bool
  pub listener : SockaddrIn6 → Listener
  pub rounds : List (Round (Poll Request))
  pub grants_return_code : Bool

-- `DEFAULT_PEER_KEEPALIVE_SECONDS * 1e6`
abbrev pub default_peer_keepalive : ℕ
default_peer_keepalive = 60 * 1000000

-- The address of the server: that of any interface, `in6addr_any`, which is zero.
abbrev pub server_addr : Host → ServerProcess → (port : ℕ) → SockaddrIn6
server_addr host p port = record {
  sin6_family = p.af_inet6;
  sin6_port = hton host 2 port;
  sin6_flowinfo = 0;
  sin6_addr = replicate 16 0;
  sin6_scope_id = 0;
}

-- The state in which the thread starts.
abbrev pub no_entries : Thread (List Entry)
no_entries = record { shared = []; exit_ready = false }

-- Everything before the thread's function: the list, the mutexes and the condition.
unfoldable pub prepare_server : ServerProcess → Nodes → Result (Unit {0})
prepare_server p nodes = do
  _ ← linked_list_create p.grants nodes given (some tt)
  guard p.list_mutex failure_pthread_function
  guard p.exit_ready_cond failure_pthread_function
  guard p.exit_ready_mutex failure_pthread_function

module _ (host : Host) (p : ServerProcess) (nodes : Nodes) where
  unfoldable pub run_peer_discovery_bootstrap_server : (port : ℕ) → Process
  unfolding prepare_server handle_peer_discovery_requests process_of status_of
  run_peer_discovery_bootstrap_server port = elim (prepare_server p nodes) [
    | ok _ ↦ process_of (
        handle_peer_discovery_requests p.exceeds default_peer_keepalive host p.grants_return_code
          (p.listener (server_addr host p port)) false p.rounds no_entries)
    | err code ↦ exits (status_of code)
    | fault ↦ crashes
  ]

  -- `main`, whose `argc` is the length of `argv`.
  unfoldable pub server_main : (argv : List CString) → Process
  unfolding run_peer_discovery_bootstrap_server exit_of
  server_main (_ ∷ port ∷ []) = run_peer_discovery_bootstrap_server (port_of (p.strtol port))
  server_main _ = exit_of (err failure_invalid_command_line_args)
