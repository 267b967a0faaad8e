-- ===== src/Discovery/Refused.antt =====
-- `discover_peers` of src/peer_discovery_thread.c, while the server cannot be reached.
use leocoin.Prelude.{
  ℕ, suc, ◌+◌, ◌≡◌, refl, sym, Bool, true, false, List, [], ◌∷◌, length, arith, All,
}
use leocoin.Result.{Result, ok, err, failure_network_function}
use leocoin.Endian.Memory.{Host}
use leocoin.PeerDiscovery.{SockaddrIn6}
use leocoin.Io.{done}
use leocoin.Threads.{Thread, Run, runs, Round, repeat_loop, repeat}
use leocoin.Discovery.{Discovery, Attempt, request_peers, discover_peers_once}

-- An attempt that gets a socket and no connection.
pub record IsRefused (attempt : Attempt) : Type 0 where
  pub socket : attempt.socket ≡ true
  pub connect : attempt.connect ≡ false

-- Rounds at whose end the thread is not told to stop.
abbrev pub going_on : List Attempt → List (Round Attempt)
going_on [] = []
going_on (a ∷ as') = record { event = a; should_stop = false } ∷ going_on as'

module _ (host : Host) (peer_addr : SockaddrIn6) where
  unfoldable pub discover_peers :
      (grants_return_code should_stop : Bool)
      → List (Round Attempt)
      → Thread Discovery
      → Run Discovery
  unfolding discover_peers_once repeat
  discover_peers grants_return_code should_stop rs t =
      repeat (discover_peers_once host peer_addr) grants_return_code should_stop rs t

  -- The state with as many more sockets.
  abbrev pub with_sockets : ℕ → Thread Discovery → Thread Discovery
  with_sockets n t = record t { shared = record (t.shared) { open_sockets = n } }

  refused_lem :
      (attempt : Attempt) (s : Discovery)
      → IsRefused attempt
      → discover_peers_once host peer_addr attempt s
        ≡ (record s { open_sockets = suc s.open_sockets }, done (err failure_network_function))
  unfolding discover_peers_once request_peers
  refused_lem attempt s r = rw (r.socket, r.connect)

  refused_loop :
      (as' : List Attempt) (code : Result (Unit {0})) (g : Bool) (n : ℕ) (t : Thread Discovery)
      → All IsRefused as'
      → t.shared.open_sockets + length as' ≡ n
      → repeat_loop (discover_peers_once host peer_addr) g (going_on as') code t
        ≡ runs (with_sockets n t)
  unfolding repeat_loop
  refused_loop [] code g n t v e =
      let same : t.shared.open_sockets ≡ n = omega (arith, e) in rw (sym same)
  refused_loop (a ∷ as') code g n t (v, vs) e = rw (refused_lem a t.shared v) (
      refused_loop as' (err failure_network_function) g n
        (with_sockets (suc t.shared.open_sockets) t) vs (omega (arith, e)))

  -- As long as the server refuses the connection, the thread goes on, and every attempt leaves one
  -- more socket open.
  pub discover_peers_refused :
      (as' : List Attempt) (g : Bool) (t : Thread Discovery)
      → All IsRefused as'
      → discover_peers g false (going_on as') t
        ≡ runs (with_sockets (t.shared.open_sockets + length as') t)
  unfolding discover_peers repeat
  discover_peers_refused as' g t v = refused_loop as' (ok tt) g _ t v refl
