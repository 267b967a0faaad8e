-- ===== src/Examples/Discovery.antt =====
-- The theorems on src/peer_discovery_thread.c at concrete values.
use leocoin.Prelude.{
  ◌+◌, ◌*◌, ◌≡◌, refl, true, false, [], ◌∷◌, ◌++◌, length, length-append, arith, All,
}
use leocoin.Result.{ok}
use leocoin.Buffer.{put_u64}
use leocoin.Buffer.Laws.{length-put_u64}
use leocoin.Networking.Serialize.{with_len}
use leocoin.Networking.DataBytes.{data_bytes}
use leocoin.Networking.Sockets.{sent}
use leocoin.PeerDiscovery.{IsPeerInfo}
use leocoin.PeerDiscovery.ListBytes.{peer_list_bytes, length-peer_list_bytes}
use leocoin.Io.{done}
use leocoin.Session.Arrives.{Takes}
use leocoin.Threads.{Thread, runs}
use leocoin.Bootstrap.{list_header, handle_one_peer_discovery_request}
use leocoin.Bootstrap.Registers.{live_all}
use leocoin.Discovery.{Discovery, Attempt, discover_peers_once}
use leocoin.Discovery.Exchange.{
  ListArrives, IsWorking, IsServing, served, discover_peers_once-served,
}
use leocoin.Discovery.Refused.{
  IsRefused, going_on, discover_peers, with_sockets, discover_peers_refused,
}
use leocoin.Examples.Data.{host, grants_all}
use leocoin.Examples.Session.{whole, whole-Arrives, at_once-Takes}
use leocoin.Examples.Bootstrap.{
  exceeds, minute, address, address-IsPeerInfo, registering, listed, listed-IsPeerInfo, left,
  served-left, orderly, arrives,
}

left-IsPeerInfo : All IsPeerInfo left
left-IsPeerInfo = (
  address-IsPeerInfo 7 100 (omega arith) (omega arith),
  (address-IsPeerInfo 8 90 (omega arith) (omega arith), tt),
)

-- The attempt of the peer at port 7, to which the server answers with its two peers.
abbrev attempt : Attempt
attempt =
    let body = peer_list_bytes host left in
    record {
      grants = grants_all;
      heap = λ _. grants_all;
      socket = true;
      connect = true;
      outgoing = sent 48 ∷ [];
      incoming =
          whole host (with_len list_header (8 + length body)) (put_u64 host (length body) ++ body);
      lock = true;
      unlock = true;
      lock_to_print = true;
      unlock_to_print = true;
    }

attempt-IsWorking : IsWorking attempt
attempt-IsWorking = record {
  grants = λ _. refl;
  heap = λ _ _. refl;
  socket = refl;
  connect = refl;
  outgoing = at_once-Takes 48 (omega arith);
  lock = refl;
  unlock = refl;
  lock_to_print = refl;
  unlock_to_print = refl;
}

list-Arrives : ListArrives host left attempt
list-Arrives =
    let body = peer_list_bytes host left in
    whole-Arrives host (with_len list_header (8 + length body)) (put_u64 host (length body) ++ body)
      (omega (
        arith,
        length-append (put_u64 host (length body)) body,
        length-put_u64 host (length body),
        length-peer_list_bytes host left left-IsPeerInfo,
      ))

serving : IsServing (registering 7 true)
serving = record { orderly = orderly; grants = λ _. refl; grants_peer_info = refl; unlock = refl }

abbrev start : Discovery
start = record { peer_info_list = []; open_sockets = 3 }

takes :
    Takes
      (32 + 36 * length (served exceeds minute host (address 7) (registering 7 true) listed))
      (sent 104 ∷ [])
takes = rw served-left (at_once-Takes 104 (omega arith))

discover_peers_once-served_example :
    (handle_one_peer_discovery_request exceeds minute host (registering 7 true) (live_all listed)
      ≡ (
        live_all (served exceeds minute host (address 7) (registering 7 true) listed),
        done (
            ok (
              data_bytes host list_header (
                peer_list_bytes host
                  (served exceeds minute host (address 7) (registering 7 true) listed)))),
      ))
    × (discover_peers_once host (address 7) attempt start ≡ (
      record start {
        peer_info_list = served exceeds minute host (address 7) (registering 7 true) listed;
      },
      done (ok tt),
    ))
discover_peers_once-served_example =
    discover_peers_once-served exceeds minute host (address 7) listed start (registering 7 true)
      attempt listed-IsPeerInfo (address-IsPeerInfo 7 100 (omega arith) (omega arith)) (omega arith)
      serving attempt-IsWorking (arrives 7 true (omega arith)) takes (rw served-left list-Arrives)

-- An attempt without a connection.
abbrev refused : Attempt
refused = record attempt { connect = false }

refused-IsRefused : IsRefused refused
refused-IsRefused = record { socket = refl; connect = refl }

abbrev thread : Thread Discovery
thread = record { shared = start; exit_ready = false }

discover_peers_refused_example :
    discover_peers host (address 7) true false (going_on (refused ∷ refused ∷ [])) thread
    ≡ runs (with_sockets host (address 7) 5 thread)
discover_peers_refused_example =
    discover_peers_refused host (address 7) (refused ∷ refused ∷ []) true thread
      (refused-IsRefused, (refused-IsRefused, tt))
