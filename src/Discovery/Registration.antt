-- ===== src/Discovery/Registration.antt =====
-- The registration that a peer sends, and the server receives.
use leocoin.Prelude.{ℕ, ◌+◌, ◌≡◌, refl, sym, true, Bool, List, [], ◌++◌, append-nil, length, arith}
use leocoin.Result.{ok}
use leocoin.Endian.Memory.{Host}
use leocoin.Networking.{IsRegisterPeer}
use leocoin.Networking.Serialize.{register_peer_buffer}
use leocoin.Networking.RegisterPeer.{
  sent, sent-IsHeader, length-register_peer_buffer, command_register_peer_deserialize_lem,
}
use leocoin.Networking.Roundtrip.{header_bytes}
use leocoin.PeerDiscovery.{SockaddrIn6, PeerInfo, IsPeerInfo}
use leocoin.Io.{done}
use leocoin.Session.Arrives.{Arrives, server_receive_command-Arrives}
use leocoin.Bootstrap.{Request, read_registration}
use leocoin.Networking.DataBytes.{GrantsEvery}
use leocoin.Discovery.{registration_of}

-- The address of a peer, when it last connected.
abbrev pub peer_at : SockaddrIn6 → ℕ → PeerInfo
peer_at a t = record { listen_addr = a; last_connected = t }

pub registration_of-IsRegisterPeer :
    (a : SockaddrIn6) (t : ℕ) → IsPeerInfo (peer_at a t) → IsRegisterPeer (registration_of a)
registration_of-IsRegisterPeer a t v = record {
  header = record { prefix = refl; command = omega arith; command_len = omega arith };
  command = refl;
  sin6_family = v.sin6_family;
  sin6_port = v.sin6_port;
  sin6_flowinfo = v.sin6_flowinfo;
  addr = v.sin6_addr;
  sin6_scope_id = v.sin6_scope_id;
}

-- What arrives at the server.
abbrev pub registration_bytes : Host → SockaddrIn6 → List ℕ
registration_bytes host a =
    let c = registration_of a in header_bytes host (sent c).header ++ register_peer_buffer host c

module _ (exceeds : ℕ → ℕ → Bool) (keepalive : ℕ) (host : Host) (request : Request) where
  pub read_registration-Arrives :
      (a : SockaddrIn6)
      → IsPeerInfo (peer_at a request.connected_at)
      → GrantsEvery request.grants
      → request.grants_peer_info ≡ true
      → Arrives host
          (sent (registration_of a)).header
          (register_peer_buffer host (registration_of a))
          request.incoming
      → read_registration exceeds keepalive host request
        ≡ done (ok (peer_at a request.connected_at))
  unfolding read_registration
  read_registration-Arrives a w granted g arrives =
      let c = registration_of a in
      let v = registration_of-IsRegisterPeer a request.connected_at w in
      let body = register_peer_buffer host c in
      let len = length-register_peer_buffer host c v in
      let received =
        server_receive_command-Arrives request.grants host (sent c).header body request.incoming
          arrives (sent-IsHeader v) (sym len) (granted 16) (granted (16 + length body))
          (omega (arith, len)) in
      let read =
        rw append-nil at (command_register_peer_deserialize_lem host c [] 48 v (omega arith)) in
      rw (rw len at received, read, g)
