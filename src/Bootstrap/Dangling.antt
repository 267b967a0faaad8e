-- ===== src/Bootstrap/Dangling.antt =====
-- What is left in the list where the names of a new peer are not found.
use leocoin.Prelude.{ℕ, ◌≡◌, Bool, true, false, List, ◌∷◌}
use leocoin.Result.{ok, fault}
use leocoin.Endian.Memory.{Host}
use leocoin.PeerDiscovery.{PeerInfo}
use leocoin.Io.{done}
use leocoin.Bootstrap.{
  freed, Request, find_peer, register_peer, read_registration, handle_one_peer_discovery_request,
}
use leocoin.Bootstrap.Registers.{live_all, known, find_peer-live_all}

module _ (exceeds : ℕ → ℕ → Bool) (keepalive : ℕ) (host : Host) where
  -- A new peer whose names are not found, when they are printed, is freed while its node stays in
  -- front of the list; the next registration that is received, and finds the mutex, reads the freed
  -- memory.
  pub handle_one_peer_discovery_request_dangling :
      (request next : Request) (p q : PeerInfo) (ps : List PeerInfo)
      → read_registration exceeds keepalive host request ≡ done (ok p)
      → request.lock ≡ ok tt
      → known host p ps ≡ false
      → request.grants_node ≡ true
      → request.announced ≡ false
      → read_registration exceeds keepalive host next ≡ done (ok q)
      → next.lock ≡ ok tt
      → ((handle_one_peer_discovery_request exceeds keepalive host request (live_all ps)).0
          ≡ freed ∷ live_all ps)
        × ((handle_one_peer_discovery_request exceeds keepalive host next (freed ∷ live_all ps)).1
            ≡ done fault)
  unfolding handle_one_peer_discovery_request register_peer find_peer
  handle_one_peer_discovery_request_dangling request next p q ps read lock new node lost reads
        locks =
      (
        rw (read, lock, register_peer, find_peer-live_all host p ps, new, node, lost),
        rw (reads, locks, register_peer),
      )
