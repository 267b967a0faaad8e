-- ===== src/Threads.antt =====
-- The loops of the threads that serve and that register: `run_consensus_peer_server` of
-- src/consensus_peer_server_thread.c, `handle_peer_discovery_requests` of
-- src/peer_discovery_bootstrap_server_thread.c, which are one code but for the handler, and
-- `discover_peers` of src/peer_discovery_thread.c.
pub mod Keeps
pub mod Stops
use leocoin.Prelude.{ℕ, Bool, true, List, [], ◌∷◌, if◌then◌else◌}
use leocoin.Result.{
  Result, ok, err, fault, ◌>>◌, guard, failure_network_function, failure_buffer_too_small,
}
use leocoin.Io.{Io, done, waits}

-- What a thread shares: its state, and the flag by which it says that it is about to return.
pub record Thread (S : Type 0) : Type 0 where
  pub shared : S
  pub exit_ready : Bool

-- A thread returns a code, goes on for as long as nothing more is known, or faults.
pub data Run (S : Type 0) : Type 0 where
  returns : Thread S → Result (Unit {0}) → Run S
  runs : Thread S → Run S
  faults : Thread S → Run S

-- The socket on which a server listens, call by call.
pub record Listener : Type 0 where
  pub socket : Bool
  pub reuse_addr : Bool
  pub v6only : Bool
  pub bind : Bool
  pub listen : Bool

abbrev pub listening : Listener → Result (Unit {0})
listening l = do
  guard l.socket failure_network_function
  guard l.reuse_addr failure_network_function
  guard l.v6only failure_network_function
  guard l.bind failure_network_function
  guard l.listen failure_network_function

-- What `poll` and `accept` bring: `other_length` is a client address of another size, and
-- `names_not_found` a client whose names are to be printed.
pub data Poll (R : Type 0) : Type 0 where
  poll_failed : Poll R
  timed_out : Poll R
  accept_failed : Poll R
  other_length : Poll R
  names_not_found : Poll R
  connected : R → Poll R

-- One round of the loop, with `should_stop` as it is read at its end.
pub record Round (R : Type 0) : Type 0 where
  pub event : R
  pub should_stop : Bool

-- What the threads do before they return. The code is written through a `malloc` that is not checked.
unfoldable pub exit_with :
    {S : Type 0} → (grants_return_code : Bool) → Thread S → Result (Unit {0}) → Run S
exit_with grants_return_code t code =
    let t' = record t { exit_ready = true } in
    if grants_return_code then returns t' code else faults t'

-- The loop goes on with the code of a request or an attempt, whether it succeeded or not.
abbrev pub go_on : {S B : Type 0} → Thread S → Io B → (Result (Unit {0}) → Run S) → Run S
go_on t (done (ok _)) f = f (ok tt)
go_on t (done (err code)) f = f (err code)
go_on t (done fault) f = faults t
go_on t waits f = runs t

module _ {S R B : Type 0} (handle : R → S → S × Io B) (grants_return_code : Bool) where
  unfoldable pub serve_loop : List (Round (Poll R)) → Result (Unit {0}) → Thread S → Run S
  unfolding exit_with
  serve_loop [] code t = runs t
  serve_loop (r ∷ rs) code t = elim r.event [
    | poll_failed ↦ exit_with grants_return_code t (err failure_network_function)
    | timed_out ↦
        let rest = serve_loop rs code t in
        if r.should_stop then exit_with grants_return_code t code else rest
    | accept_failed ↦ exit_with grants_return_code t (err failure_network_function)
    | other_length ↦ exit_with grants_return_code t (err failure_buffer_too_small)
    | names_not_found ↦ exit_with grants_return_code t (err failure_network_function)
    | connected request ↦
        let next = handle request t.shared in
        let t' = record t { shared = next.0 } in
        go_on t' next.1 λ code'.
          let rest = serve_loop rs code' t' in
          if r.should_stop then exit_with grants_return_code t' code' else rest
  ]

  -- A server thread. `should_stop` is the flag as it is read before the loop.
  unfoldable pub serve : Listener → (should_stop : Bool) → List (Round (Poll R)) → Thread S → Run S
  unfolding exit_with serve_loop
  serve l should_stop rs t = elim (listening l) [
    | ok _ ↦
        let rest = serve_loop rs (ok tt) t in
        if should_stop then exit_with grants_return_code t (ok tt) else rest
    | err code ↦ exit_with grants_return_code t (err code)
    | fault ↦ faults t
  ]

module _ {S R B : Type 0} (attempt_once : R → S → S × Io B) (grants_return_code : Bool) where
  -- The loop that tries, and sleeps, until it is told to stop.
  unfoldable pub repeat_loop : List (Round R) → Result (Unit {0}) → Thread S → Run S
  unfolding exit_with
  repeat_loop [] code t = runs t
  repeat_loop (r ∷ rs) code t =
      let next = attempt_once r.event t.shared in
      let t' = record t { shared = next.0 } in
      go_on t' next.1 λ code'.
        let rest = repeat_loop rs code' t' in
        if r.should_stop then exit_with grants_return_code t' code' else rest

  unfoldable pub repeat : (should_stop : Bool) → List (Round R) → Thread S → Run S
  unfolding exit_with repeat_loop
  repeat should_stop rs t =
      let rest = repeat_loop rs (ok tt) t in
      if should_stop then exit_with grants_return_code t (ok tt) else rest
