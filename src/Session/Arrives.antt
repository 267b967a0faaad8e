-- ===== src/Session/Arrives.antt =====
-- A command that is sent in pieces is received whole.
use leocoin.Prelude.{
  ℕ, ◌+◌, ◌-◌, ◌<◌, ◌^◌, ◌≡◌, ap, sym, ◌∙◌, true, false, some, List, [], ◌++◌, append-nil, arith,
  length, All, ◌==◌,
}
use leocoin.Result.{ok, Allocator, given}
use leocoin.Endian.Memory.{Host}
use leocoin.Networking.{CommandHeader, IsHeader}
use leocoin.Networking.Roundtrip.{header_bytes, length-header_bytes, read_header-header_bytes}
use leocoin.Networking.Deserialize.{command_header_deserialize}
use leocoin.Networking.Sockets.{Received, Sent, recv_all, send_all, returned}
use leocoin.Networking.Sockets.Complete.{
  joined, arriving, FitsInt, taking, sum, recv_all-joined, send_all-taking,
}
use leocoin.Io.{done, of_loop}
use leocoin.Session.{
  Incoming, command_size, receive_command, realloc_checked, realloc_unchecked, recv_behind_header,
  server_receive_command, client_receive_command,
}
use leocoin.Session.Room.{overruns-whole}

-- The pieces in which the header and the rest of a command arrive.
pub record Arrives (host : Host) (h : CommandHeader) (body : List ℕ) (incoming : Incoming)
    : Type 0 where
  pub header_pieces : List (List ℕ)
  pub header_more : List Received
  pub header_arrives : incoming.header ≡ arriving header_pieces header_more
  pub header_joined : joined header_pieces ≡ header_bytes host h
  pub header_fits : All FitsInt header_pieces
  pub body_pieces : List (List ℕ)
  pub body_more : List Received
  pub body_arrives : incoming.body ≡ arriving body_pieces body_more
  pub body_joined : joined body_pieces ≡ body
  pub body_fits : All FitsInt body_pieces

recv_header :
    (host : Host) (h : CommandHeader) (body : List ℕ) (incoming : Incoming)
    → Arrives host h body incoming
    → recv_all false 16 incoming.header ≡ returned (ok (header_bytes host h))
recv_header host h body incoming a = rw (a.header_arrives) (
    rw a.header_joined at (
      recv_all-joined a.header_pieces a.header_more 16 a.header_fits
        (ap length a.header_joined ∙ length-header_bytes host h)))

recv_body :
    (host : Host) (h : CommandHeader) (body : List ℕ) (incoming : Incoming)
    → Arrives host h body incoming
    → recv_all false (length body) incoming.body ≡ returned (ok body)
recv_body host h body incoming a = rw (a.body_arrives) (
    rw a.body_joined at (
      recv_all-joined a.body_pieces a.body_more (length body) a.body_fits
        (ap length a.body_joined)))

pub header_read :
    (host : Host) (h : CommandHeader)
    → IsHeader h
    → command_header_deserialize host given (some (header_bytes host h)) 16 ≡ ok h
header_read host h v =
    let read = rw append-nil at (read_header-header_bytes host 16 h [] v (omega arith)) in
    unfold command_header_deserialize in rw read

module _ (grants : Allocator) (host : Host) (h : CommandHeader) (body : List ℕ)
    (incoming : Incoming) (arrives : Arrives host h body incoming) (v : IsHeader h)
    (len : h.command_len ≡ length body) (g16 : grants 16 ≡ true)
    (g : grants (16 + length body) ≡ true) (fits : 16 + length body < 2 ^ 64) where
  room : (16 + length body) - 16 ≡ length body
  room = omega arith

  size : command_size (length body) ≡ 16 + length body
  size = omega arith

  same : (h.command == h.command) ≡ true
  same = ground arith

  pub server_receive_command-Arrives :
      server_receive_command grants host h.command incoming
      ≡ done (ok (some (header_bytes host h ++ body), 16 + length body))
  unfolding server_receive_command receive_command realloc_unchecked recv_behind_header
  server_receive_command-Arrives = rw (
    g16,
    recv_header host h body incoming arrives,
    header_read host h v,
    same,
    len,
    size,
    g,
    room,
    overruns-whole (length body) incoming.body 0,
    recv_body host h body incoming arrives,
  )

  pub client_receive_command-Arrives :
      client_receive_command grants host h.command incoming
      ≡ done (ok (some (header_bytes host h ++ body), 16 + length body))
  unfolding client_receive_command receive_command realloc_checked recv_behind_header
  client_receive_command-Arrives = rw (
    g16,
    recv_header host h body incoming arrives,
    header_read host h v,
    same,
    len,
    size,
    g,
    room,
    overruns-whole (length body) incoming.body 0,
    recv_body host h body incoming arrives,
  )

-- The bytes that a socket takes of a message of some length.
pub record Takes (len : ℕ) (outgoing : List Sent) : Type 0 where
  pub counts : List ℕ
  pub more : List Sent
  pub takes : outgoing ≡ taking counts more
  pub fits : All (λ n. n < 2 ^ 31) counts
  pub whole : sum counts ≡ len

pub send_all-Takes :
    (buf : List ℕ) (len : ℕ) (outgoing : List Sent)
    → length buf ≡ len
    → Takes len outgoing
    → of_loop (send_all (some buf) outgoing) ≡ done (ok buf)
send_all-Takes buf len outgoing e t =
    rw (t.takes, send_all-taking t.counts t.more buf t.fits (t.whole ∙ sym e))
