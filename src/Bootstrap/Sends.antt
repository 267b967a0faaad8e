-- ===== src/Bootstrap/Sends.antt =====
-- The bytes of the list that the server sends.
use leocoin.Prelude.{ℕ, ◌+◌, ◌*◌, ◌<◌, ◌^◌, ◌≡◌, refl, List, length, All, arith, Bool}
use leocoin.Result.{ok}
use leocoin.Endian.Memory.{Host}
use leocoin.Networking.{IsHeader}
use leocoin.Networking.DataBytes.{
  GrantsEvery, granted-IsSendable, data_bytes, length-data_bytes,
  command_send_peer_list_serialize_lem,
}
use leocoin.PeerDiscovery.{PeerInfo, IsPeerInfo}
use leocoin.PeerDiscovery.ListBytes.{
  peer_list_bytes, length-peer_list_bytes, peer_info_list_serialize_lem,
}
use leocoin.Io.{done}
use leocoin.Session.Arrives.{Takes, send_all-Takes}
use leocoin.Bootstrap.{Request, list_header, send_peer_list}

pub list_header-IsHeader : IsHeader list_header
list_header-IsHeader = record { prefix = refl; command = omega arith; command_len = omega arith }

module _ (exceeds : ℕ → ℕ → Bool) (keepalive : ℕ) (host : Host) (request : Request) where
  pub send_peer_list_lem :
      (qs : List PeerInfo)
      → All IsPeerInfo qs
      → 32 + 36 * length qs < 2 ^ 64
      → GrantsEvery request.grants
      → request.unlock ≡ ok tt
      → Takes (32 + 36 * length qs) request.outgoing
      → send_peer_list exceeds keepalive host request qs
        ≡ done (ok (data_bytes host list_header (peer_list_bytes host qs)))
  unfolding send_peer_list
  send_peer_list_lem qs v fits granted unlocked takes =
      let body = peer_list_bytes host qs in
      let len : length body ≡ 8 + 36 * length qs = length-peer_list_bytes host qs v in
      let sendable =
        granted-IsSendable request.grants list_header body granted list_header-IsHeader
          (omega (arith, len)) in
      let serialized =
        rw len at (command_send_peer_list_serialize_lem host list_header body sendable refl) in
      let sent =
        send_all-Takes (data_bytes host list_header body) (32 + 36 * length qs) request.outgoing
          (omega (arith, length-data_bytes host list_header body, len)) takes in
      rw (
        peer_info_list_serialize_lem request.grants host qs (omega arith) (λ n _. granted n),
        unlocked,
        serialized,
        sent,
      )
