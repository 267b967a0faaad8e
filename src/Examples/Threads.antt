-- ===== src/Examples/Threads.antt =====
-- The threads of the servers at concrete values.
use leocoin.Prelude.{◌≡◌, refl, true, false, some, List, [], ◌∷◌, none}
use leocoin.Result.{ok}
use leocoin.Threads.{Thread, returns, Listener, Poll, connected, accept_failed, Round, serve}
use leocoin.Threads.Keeps.{thread_of, says_ready}
use leocoin.Threads.Stops.{arriving_requests, handle_all, IsAnswered, serve-handle_all}
use leocoin.Consensus.{SharedChain, Request, handle_one_consensus_request}
use leocoin.Consensus.Keeps.{IsLater}
use leocoin.Consensus.Server.{run_consensus_peer_server, run_consensus_peer_server-IsLater}
use leocoin.Examples.Data.{host, chain, ssl}
use leocoin.Examples.Consensus.{start, carrying, ours, chain_adopted}

answered :
    IsAnswered
      (handle_one_consensus_request ssl host)
      (none ∷ some (carrying chain 8880) ∷ [])
      (ours start)
unfolding IsAnswered
answered = rw chain_adopted (refl, tt)

-- A thread that gets the chain, and a client that is lost, and is then told to stop.
abbrev thread : Thread SharedChain
thread = record { shared = ours start; exit_ready = false }

abbrev listener : Listener
listener = record { socket = true; reuse_addr = true; v6only = true; bind = true; listen = true }

abbrev rounds : List (Round (Poll Request))
rounds =
    record { event = connected (carrying chain 8880); should_stop = false }
    ∷ record { event = accept_failed; should_stop = true }
    ∷ []

run_consensus_peer_server-IsLater_example :
    IsLater ssl host
      (ours start)
      (thread_of (run_consensus_peer_server ssl host true listener false rounds thread)).shared
    × (says_ready (run_consensus_peer_server ssl host true listener false rounds thread) ≡ true)
run_consensus_peer_server-IsLater_example =
    run_consensus_peer_server-IsLater ssl host true listener false rounds thread

-- The same chain, with a poll that times out before it, and more that would arrive behind it.
serve-handle_all_example :
    serve
      (handle_one_consensus_request ssl host)
      true
      listener
      false
      (arriving_requests
        (handle_one_consensus_request ssl host)
        (none ∷ [])
        (some (carrying chain 8880))
        rounds)
      thread
    ≡ returns
        (record {
          shared =
              (handle_all
                (handle_one_consensus_request ssl host)
                (none ∷ some (carrying chain 8880) ∷ [])
                (ok tt)
                (ours start)).0;
          exit_ready = true;
        })
        (handle_all
          (handle_one_consensus_request ssl host)
          (none ∷ some (carrying chain 8880) ∷ [])
          (ok tt)
          (ours start)).1
serve-handle_all_example =
    serve-handle_all (handle_one_consensus_request ssl host) listener (none ∷ [])
      (some (carrying chain 8880)) rounds thread refl answered
