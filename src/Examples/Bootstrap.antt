-- ===== src/Examples/Bootstrap.antt =====
-- The theorems on src/peer_discovery_bootstrap_server_thread.c at concrete values.
use mathlib.Core.List.{Memᴰ}
use leocoin.Prelude.{
  ℕ, ◌+◌, ◌*◌, ◌≡◌, ◌<◌, ◌^◌, refl, true, false, Bool, List, [], ◌∷◌, ◌++◌, length,
  length-replicate, length-append, replicate, arith, All, ltb, some,
}
use leocoin.Result.{ok, fault}
use leocoin.Networking.Serialize.{register_peer_buffer}
use leocoin.Networking.RegisterPeer.{sent, length-register_peer_buffer}
use leocoin.Networking.Sockets.{Sent}
use leocoin.PeerDiscovery.{SockaddrIn6, PeerInfo, IsPeerInfo, compare_peer_info_t, sockaddr_memory}
use leocoin.Io.{done}
use leocoin.Session.Arrives.{Arrives}
use leocoin.Threads.{Thread, Listener, Poll, connected, timed_out, Round}
use leocoin.Threads.Keeps.{thread_of, says_ready}
use leocoin.Bootstrap.{
  Entry, freed, Request, peer_expired, read_registration, handle_one_peer_discovery_request,
}
use leocoin.Bootstrap.Registers.{live_all, known, registered, unexpired}
use leocoin.Bootstrap.Answers.{IsOrderly}
use leocoin.Bootstrap.Current.{handle_one_peer_discovery_request-current}
use leocoin.Bootstrap.Distinct.{IsListed}
use leocoin.Bootstrap.Dangling.{handle_one_peer_discovery_request_dangling}
use leocoin.Bootstrap.Server.{
  handle_peer_discovery_requests, handle_peer_discovery_requests-IsListed,
}
use leocoin.Discovery.{registration_of}
use leocoin.Discovery.Registration.{
  peer_at, registration_of-IsRegisterPeer, read_registration-Arrives,
}
use leocoin.Discovery.Exchange.{served}
use leocoin.Examples.Data.{host, grants_all}
use leocoin.Examples.Session.{whole, whole-Arrives}

-- A difference in seconds against a time in microseconds, of one minute here.
abbrev pub exceeds : ℕ → ℕ → Bool
exceeds seconds micros = ltb micros (seconds * 1000000)

abbrev pub minute : ℕ
minute = 60000000

abbrev pub address : ℕ → SockaddrIn6
address port = record {
  sin6_family = 10;
  sin6_port = port;
  sin6_flowinfo = 0;
  sin6_addr = replicate 16 254;
  sin6_scope_id = 0;
}

pub address-IsPeerInfo :
    (port t : ℕ) → port < 2 ^ 16 → t < 2 ^ 64 → IsPeerInfo (peer_at (address port) t)
address-IsPeerInfo port t p h = record {
  sin6_family = omega arith;
  sin6_port = p;
  sin6_flowinfo = omega arith;
  sin6_addr = length-replicate {A = ℕ} 16 254;
  sin6_scope_id = omega arith;
  last_connected = h;
}

-- The peer at port 7 registers at second 100; the names that are printed are found, or not.
abbrev pub registering : ℕ → Bool → Request
registering port announced = record {
  grants = grants_all;
  grants_peer_info = true;
  grants_node = true;
  incoming =
      whole host (sent (registration_of (address port))).header
        (register_peer_buffer host (registration_of (address port)));
  outgoing = Sent.sent 104 ∷ [];
  connected_at = 100;
  current_time = 100;
  announced = announced;
  removed = λ _. true;
  lock = ok tt;
  unlock = ok tt;
}

-- The peer at port 8 was there at second 90, and the one at port 9 is overdue.
abbrev pub listed : List PeerInfo
listed = peer_at (address 8) 90 ∷ peer_at (address 9) 5 ∷ []

pub listed-IsPeerInfo : All IsPeerInfo listed
listed-IsPeerInfo = (
  address-IsPeerInfo 8 90 (omega arith) (omega arith),
  (address-IsPeerInfo 9 5 (omega arith) (omega arith), tt),
)

pub orderly : IsOrderly (registering 7 true)
orderly = record { grants_node = refl; announced = refl; removed = λ _. refl; lock = refl }

pub arrives :
    (port : ℕ) (announced : Bool)
    → port < 2 ^ 16
    → Arrives host
        (sent (registration_of (address port))).header
        (register_peer_buffer host (registration_of (address port)))
        (registering port announced).incoming
arrives port announced fits =
    let c = registration_of (address port) in
    let v =
      registration_of-IsRegisterPeer (address port) 100
        (address-IsPeerInfo port 100 fits (omega arith)) in
    whole-Arrives host (sent c).header (register_peer_buffer host c)
      (omega (arith, length-register_peer_buffer host c v))

new_peer : known host (peer_at (address 7) 100) listed ≡ false
unfolding known compare_peer_info_t sockaddr_memory leocoin.Prelude.bytes_eq
    leocoin.Endian.Memory.memory_of leocoin.Endian.Memory.le_bytes
new_peer = refl

apart :
    compare_peer_info_t host (some (peer_at (address 8) 90)) (some (peer_at (address 9) 5)) ≡ false
unfolding compare_peer_info_t sockaddr_memory leocoin.Prelude.bytes_eq
    leocoin.Endian.Memory.memory_of leocoin.Endian.Memory.le_bytes
apart = refl

reads :
    (port : ℕ) (announced : Bool)
    → port < 2 ^ 16
    → read_registration exceeds minute host (registering port announced)
      ≡ done (ok (peer_at (address port) 100))
reads port announced fits =
    read_registration-Arrives exceeds minute host (registering port announced) (address port)
      (address-IsPeerInfo port 100 fits (omega arith)) (λ _. refl) refl
      (arrives port announced fits)

abbrev pub left : List PeerInfo
left = peer_at (address 7) 100 ∷ peer_at (address 8) 90 ∷ []

pub served-left : served exceeds minute host (address 7) (registering 7 true) listed ≡ left
unfolding registered unexpired known compare_peer_info_t sockaddr_memory leocoin.Prelude.bytes_eq
    leocoin.Endian.Memory.memory_of leocoin.Endian.Memory.le_bytes
served-left = refl

handle_one_peer_discovery_request-current_example :
    (qs : List PeerInfo) × ((handle_one_peer_discovery_request exceeds minute host
        (registering 7 true)
        (live_all listed)).0
      ≡ live_all qs)
    × All (λ (q : PeerInfo). peer_expired exceeds minute 100 q ≡ false) qs
    × Memᴰ (peer_at (address 7) 100) qs
handle_one_peer_discovery_request-current_example =
    handle_one_peer_discovery_request-current exceeds minute host (registering 7 true)
      (peer_at (address 7) 100) listed orderly (reads 7 true (omega arith))
      (address-IsPeerInfo 7 100 (omega arith) (omega arith)) listed-IsPeerInfo refl

handle_one_peer_discovery_request_dangling_example :
    ((handle_one_peer_discovery_request exceeds minute host
        (registering 7 false)
        (live_all listed)).0
      ≡ freed ∷ live_all listed)
    × ((handle_one_peer_discovery_request exceeds minute host
          (registering 8 true)
          (freed ∷ live_all listed)).1
        ≡ done fault)
handle_one_peer_discovery_request_dangling_example =
    handle_one_peer_discovery_request_dangling exceeds minute host (registering 7 false)
      (registering 8 true) (peer_at (address 7) 100) (peer_at (address 8) 100) listed
      (reads 7 false (omega arith)) refl new_peer refl refl (reads 8 true (omega arith)) refl

-- The two peers that are listed have different addresses.
listed-IsListed : IsListed host (live_all listed)
listed-IsListed = record { peers = listed; live = refl; distinct = ((apart, tt), (tt, tt)) }

abbrev listener : Listener
listener = record { socket = true; reuse_addr = true; v6only = true; bind = true; listen = true }

abbrev rounds : List (Round (Poll Request))
rounds =
    record { event = connected (registering 7 true); should_stop = false }
    ∷ record { event = timed_out; should_stop = true }
    ∷ []

abbrev thread : Thread (List Entry)
thread = record { shared = live_all listed; exit_ready = false }

handle_peer_discovery_requests-IsListed_example :
    IsListed host
      (thread_of (
        handle_peer_discovery_requests exceeds minute host true listener false rounds
          thread)).shared
    × (says_ready
          (handle_peer_discovery_requests exceeds minute host true listener false rounds thread)
        ≡ true)
handle_peer_discovery_requests-IsListed_example =
    handle_peer_discovery_requests-IsListed exceeds minute host true listener false rounds thread
      (refl, (tt, tt)) listed-IsListed
