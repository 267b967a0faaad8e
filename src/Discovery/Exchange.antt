-- ===== src/Discovery/Exchange.antt =====
-- A registration, from the peer that sends it to the list that the peer is left with.
use leocoin.Prelude.{
  ℕ, ◌+◌, ◌*◌, ◌-◌, suc, ◌<◌, ◌^◌, ◌≡◌, refl, ◌∙◌, true, Bool, List, [], ◌++◌, append-nil, length,
  length-append, arith, All,
}
use leocoin.Result.{ok}
use leocoin.Endian.Memory.{Host}
use leocoin.Buffer.{put_u64}
use leocoin.Buffer.Laws.{length-put_u64}
use leocoin.Networking.Serialize.{register_peer_buffer, with_len}
use leocoin.Networking.RegisterPeer.{
  sent, length-register_peer_buffer, command_register_peer_serialize_lem,
}
use leocoin.Networking.Roundtrip.{header_bytes, length-header_bytes}
use leocoin.Networking.DataBytes.{
  GrantsEvery, granted-IsSendable, data_bytes, sent_header, sent_header-IsHeader,
  command_send_peer_list_deserialize_lem,
}
use leocoin.PeerDiscovery.{SockaddrIn6, PeerInfo, IsPeerInfo}
use leocoin.PeerDiscovery.ListBytes.{
  GrantsAll, peer_list_bytes, length-peer_list_bytes, peer_info_list_deserialize_lem,
}
use leocoin.Io.{done}
use leocoin.Session.Arrives.{Arrives, Takes, send_all-Takes, client_receive_command-Arrives}
use leocoin.Bootstrap.{Request, list_header, peer_expired, handle_one_peer_discovery_request}
use leocoin.Bootstrap.Registers.{live_all, registered, unexpired}
use leocoin.Bootstrap.Answers.{IsOrderly, handle_one_peer_discovery_request-registered}
use leocoin.Bootstrap.Current.{
  All-unexpired, length-unexpired, registered-IsPeerInfo, length-registered,
}
use leocoin.Bootstrap.Sends.{list_header-IsHeader, send_peer_list_lem}
use leocoin.Discovery.{Discovery, Attempt, registration_of, request_peers, discover_peers_once}
use leocoin.Discovery.Registration.{
  peer_at, registration_of-IsRegisterPeer, registration_bytes, read_registration-Arrives,
}

-- What arrives at the peer: the list of peers.
abbrev pub ListArrives : Host → List PeerInfo → Attempt → Type 0
ListArrives host qs attempt =
    let body = peer_list_bytes host qs in
    Arrives host (with_len list_header (8 + length body)) (put_u64 host (length body) ++ body)
      attempt.incoming

-- An attempt during which memory is granted, and the network and the mutex work.
pub record IsWorking (attempt : Attempt) : Type 0 where
  pub grants : GrantsEvery attempt.grants
  pub heap : GrantsAll attempt.heap
  pub socket : attempt.socket ≡ true
  pub connect : attempt.connect ≡ true
  pub outgoing : Takes 48 attempt.outgoing
  pub lock : attempt.lock ≡ true
  pub unlock : attempt.unlock ≡ true
  pub lock_to_print : attempt.lock_to_print ≡ true
  pub unlock_to_print : attempt.unlock_to_print ≡ true

module _ (host : Host) (a : SockaddrIn6) (t : ℕ) (w : IsPeerInfo (peer_at a t)) where
  length-registration_bytes : length (registration_bytes host a) ≡ 48
  length-registration_bytes =
      let c = registration_of a in
      omega (
        arith,
        length-append (header_bytes host (sent c).header) (register_peer_buffer host c),
        length-header_bytes host (sent c).header,
        length-register_peer_buffer host c (registration_of-IsRegisterPeer a t w),
      )

  request_peers-Arrives :
      (attempt : Attempt) (qs : List PeerInfo)
      → All IsPeerInfo qs
      → 32 + 36 * length qs < 2 ^ 64
      → IsWorking attempt
      → ListArrives host qs attempt
      → request_peers host a attempt ≡ done (ok qs)
  unfolding request_peers data_bytes
  request_peers-Arrives attempt qs v fits works arrives =
      let body = peer_list_bytes host qs in
      let len : length body ≡ 8 + 36 * length qs = length-peer_list_bytes host qs v in
      let rest = put_u64 host (length body) ++ body in
      let size : length rest ≡ 16 + 36 * length qs = omega (
        arith,
        len,
        length-append (put_u64 host (length body)) body,
        length-put_u64 host (length body),
      ) in
      let sendable =
        granted-IsSendable attempt.grants list_header body works.grants list_header-IsHeader
          (omega (arith, len)) in
      let serialized =
        command_register_peer_serialize_lem attempt.grants host (registration_of a)
          (registration_of-IsRegisterPeer a t w) (works.grants 16) (works.grants 32)
          (works.grants 48) in
      let received =
        client_receive_command-Arrives attempt.grants host
          (sent_header host list_header body sendable) rest attempt.incoming arrives
          (sent_header-IsHeader host list_header body sendable) (omega (arith, len, size))
          (works.grants 16) (works.grants (16 + length rest)) (omega (arith, size)) in
      let read = rw append-nil at (
        command_send_peer_list_deserialize_lem host list_header body sendable [] (16 + length rest)
          refl (omega (arith, len, size))) in
      let parsed = rw append-nil at (
        peer_info_list_deserialize_lem attempt.heap host qs [] (length body) v (omega arith)
          works.heap (omega (arith, len))) in
      rw (
        works.connect,
        serialized,
        send_all-Takes (registration_bytes host a) 48 attempt.outgoing length-registration_bytes
            works.outgoing,
        received,
        read,
        parsed,
      )

-- A request during which the server has its memory, and its mutex works.
pub record IsServing (request : Request) : Type 0 where
  pub orderly : IsOrderly request
  pub grants : GrantsEvery request.grants
  pub grants_peer_info : request.grants_peer_info ≡ true
  pub unlock : request.unlock ≡ ok tt

-- What the server makes of its list.
abbrev pub served :
    (exceeds : ℕ → ℕ → Bool) (keepalive : ℕ)
    → Host
    → SockaddrIn6
    → Request
    → List PeerInfo
    → List PeerInfo
served exceeds keepalive host a request ps =
    unexpired (peer_expired exceeds keepalive request.current_time)
      (registered host (peer_at a request.connected_at) ps)

module _ (exceeds : ℕ → ℕ → Bool) (keepalive : ℕ) (host : Host) where
  -- A peer registers with the server: the bytes of its registration arrive there, in any pieces, and
  -- those of the answer at the peer. Then the server has the list of the peers that have not expired,
  -- with the new peer added or updated, has sent exactly this list, and the peer's own list is the
  -- same, and its socket is closed. The values fit their types, memory is granted, names are found,
  -- and network and mutexes work.
  pub discover_peers_once-served :
      (a : SockaddrIn6) (ps : List PeerInfo) (s : Discovery) (request : Request) (attempt : Attempt)
      → All IsPeerInfo ps
      → IsPeerInfo (peer_at a request.connected_at)
      → 68 + 36 * length ps < 2 ^ 64
      → IsServing request
      → IsWorking attempt
      → Arrives host
          (sent (registration_of a)).header
          (register_peer_buffer host (registration_of a))
          request.incoming
      → Takes (32 + 36 * length (served exceeds keepalive host a request ps)) request.outgoing
      → ListArrives host (served exceeds keepalive host a request ps) attempt
      → (handle_one_peer_discovery_request exceeds keepalive host request (live_all ps) ≡ (
        live_all (served exceeds keepalive host a request ps),
        done (
            ok (
              data_bytes host list_header
                (peer_list_bytes host (served exceeds keepalive host a request ps)))),
      ))
        × (discover_peers_once host a attempt s ≡ (
          record s { peer_info_list = served exceeds keepalive host a request ps },
          done (ok tt),
        ))
  unfolding discover_peers_once
  discover_peers_once-served a ps s request attempt v w fits serves works arrives takes answer =
      let p = peer_at a request.connected_at in
      let expired = peer_expired exceeds keepalive request.current_time in
      let qs = served exceeds keepalive host a request ps in
      let vs : All IsPeerInfo qs =
        All-unexpired expired IsPeerInfo _ (registered-IsPeerInfo host p w ps v) in
      let size : 32 + 36 * length qs < 2 ^ 64 =
        omega
          (arith, length-unexpired expired (registered host p ps), length-registered host p w ps) in
      let reads =
        read_registration-Arrives exceeds keepalive host request a w serves.grants
          serves.grants_peer_info arrives in
      let requested =
        request_peers-Arrives host a request.connected_at w attempt qs vs size works answer in
      let sockets : suc s.open_sockets - 1 ≡ s.open_sockets = omega arith in
      (
        handle_one_peer_discovery_request-registered exceeds keepalive host request p ps
              serves.orderly reads
            ∙ rw (
                send_peer_list_lem exceeds keepalive host request qs vs size serves.grants
                  serves.unlock takes),
        rw (
          works.socket, requested, works.lock, works.unlock, works.lock_to_print,
          works.unlock_to_print, sockets,
        ),
      )
