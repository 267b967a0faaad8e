-- ===== src/Bootstrap/Server.antt =====
-- `handle_peer_discovery_requests` of src/peer_discovery_bootstrap_server_thread.c.
use leocoin.Prelude.{ℕ, ◌≡◌, Bool, true, List, All}
use leocoin.Endian.Memory.{Host}
use leocoin.Threads.{Thread, Run, Listener, Poll, Round, serve}
use leocoin.Threads.Keeps.{OfRequest, thread_of, says_ready, serve-IsKept}
use leocoin.Bootstrap.{Entry, Request, handle_one_peer_discovery_request}
use leocoin.Bootstrap.Distinct.{IsListed, handle_one_peer_discovery_request-IsListed}

module _ (exceeds : ℕ → ℕ → Bool) (keepalive : ℕ) (host : Host) where
  unfoldable pub handle_peer_discovery_requests :
      (grants_return_code : Bool)
      → Listener
      → (should_stop : Bool) → List (Round (Poll Request))
      → Thread (List Entry)
      → Run (List Entry)
  unfolding handle_one_peer_discovery_request serve
  handle_peer_discovery_requests grants_return_code l should_stop rs t =
      serve (handle_one_peer_discovery_request exceeds keepalive host) grants_return_code l
        should_stop rs t

  -- If, of each peer that registers, the names are found that are printed, or nothing is printed, a list
  -- of live peers with different addresses stays one, however the thread of the bootstrap server runs
  -- and ends. Where the thread returns it has set `exit_ready`.
  pub handle_peer_discovery_requests-IsListed :
      (g : Bool) (l : Listener) (should_stop : Bool) (rs : List (Round (Poll Request)))
      (t : Thread (List Entry))
      → All (OfRequest (λ (r : Request). r.announced ≡ true)) rs
      → IsListed host t.shared
      → IsListed host (thread_of (handle_peer_discovery_requests g l should_stop rs t)).shared
        × (says_ready (handle_peer_discovery_requests g l should_stop rs t) ≡ true)
  unfolding handle_peer_discovery_requests
  handle_peer_discovery_requests-IsListed g l should_stop rs t announced listed =
      let kept' =
        serve-IsKept (handle_one_peer_discovery_request exceeds keepalive host) g (IsListed host)
          (λ (r : Request). r.announced ≡ true)
          (λ request s a.
            handle_one_peer_discovery_request-IsListed host exceeds keepalive request s a)
          l should_stop rs t announced listed in
      (kept'.shared, kept'.exit_ready)
