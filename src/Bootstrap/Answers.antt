-- ===== src/Bootstrap/Answers.antt =====
-- What a registration does to the list of peers, and what is sent back.
use leocoin.Prelude.{ℕ, ◌≡◌, Bool, true, List, [], Bool-cases, inl, inr}
use leocoin.Result.{ok}
use leocoin.Endian.Memory.{Host}
use leocoin.PeerDiscovery.{PeerInfo}
use leocoin.Io.{done}
use leocoin.Bootstrap.{
  Request, register_peer, peer_expired, read_registration, send_peer_list,
  handle_one_peer_discovery_request,
}
use leocoin.Bootstrap.Registers.{
  live_all, known, registered, unexpired, find_peer-live_all, update_found-live_all,
  remove_expired_lem,
}

-- A request during which the memory for the peer's node is granted, names are found and the mutex
-- works.
pub record IsOrderly (request : Request) : Type 0 where
  pub grants_node : request.grants_node ≡ true
  pub announced : request.announced ≡ true
  pub removed : (n : ℕ) → request.removed n ≡ true
  pub lock : request.lock ≡ ok tt

register_peer_lem :
    (host : Host) (request : Request) (p : PeerInfo) (ps : List PeerInfo)
    → IsOrderly request
    → register_peer host request p (live_all ps) ≡ (live_all (registered host p ps), ok tt)
unfolding register_peer registered
register_peer_lem host request p ps v = elim (Bool-cases (known host p ps)) [
  | inl e ↦
      rw (
        register_peer,
        find_peer-live_all host p ps,
        e,
        update_found-live_all host p ps,
        v.announced,
      )
  | inr e ↦ rw (register_peer, find_peer-live_all host p ps, e, v.grants_node, v.announced)
]

module _ (exceeds : ℕ → ℕ → Bool) (keepalive : ℕ) (host : Host) (request : Request) where
  -- A registration that is received on a list of live peers, with memory for the node, the names and
  -- the mutex at hand, leaves the peers that have not expired of the list in which the peer was added
  -- in front, or, where its address was known, updated in its place. These, in their order, are what
  -- the server sends back.
  pub handle_one_peer_discovery_request-registered :
      (p : PeerInfo) (ps : List PeerInfo)
      → IsOrderly request
      → read_registration exceeds keepalive host request ≡ done (ok p)
      → handle_one_peer_discovery_request exceeds keepalive host request (live_all ps) ≡ (
        live_all (
            unexpired (peer_expired exceeds keepalive request.current_time) (registered host p ps)),
        send_peer_list exceeds keepalive host request (
            unexpired (peer_expired exceeds keepalive request.current_time) (registered host p ps)),
      )
  unfolding handle_one_peer_discovery_request
  handle_one_peer_discovery_request-registered p ps v read = rw (
    read,
    v.lock,
    register_peer_lem host request p ps v,
    remove_expired_lem (peer_expired exceeds keepalive request.current_time) request.removed
        v.removed [] (registered host p ps),
  )
