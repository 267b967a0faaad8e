-- ===== src/Examples/Session.antt =====
-- Commands that arrive in one piece, bytes that are taken at once, and a header that announces too much.
use leocoin.Prelude.{
  ℕ, ◌<◌, ◌^◌, ◌≡◌, refl, false, List, [], ◌∷◌, append-nil, length, arith, leb, true, ◌↔◌,
}
use leocoin.Result.{ok, fault, Allocator}
use leocoin.Endian.Memory.{Host}
use leocoin.Networking.{CommandHeader, IsHeader}
use leocoin.Networking.Roundtrip.{header_bytes, length-header_bytes}
use leocoin.Networking.Sockets.{sent, received, recv_all, returned}
use leocoin.Networking.Sockets.Complete.{recv_all-joined}
use leocoin.Io.{done}
use leocoin.Session.{Incoming, server_receive_command}
use leocoin.Session.Arrives.{Arrives, Takes}
use leocoin.Session.Unchecked.{IsTooSmall, server_receive_command_unchecked}
use leocoin.Session.Room.{delivers}
use leocoin.Examples.Data.{host, header}

abbrev pub whole : Host → CommandHeader → List ℕ → Incoming
whole host h body = record {
  header = received (header_bytes host h) ∷ [];
  body = received body ∷ [];
}

pub whole-Arrives :
    (host : Host) (h : CommandHeader) (body : List ℕ)
    → length body < 2 ^ 31
    → Arrives host h body (whole host h body)
whole-Arrives host h body fits = record {
  header_pieces = header_bytes host h ∷ [];
  header_more = [];
  header_arrives = refl;
  header_joined = append-nil (header_bytes host h);
  header_fits = (omega (arith, length-header_bytes host h), tt);
  body_pieces = body ∷ [];
  body_more = [];
  body_arrives = refl;
  body_joined = append-nil body;
  body_fits = (fits, tt);
}

pub at_once-Takes : (n : ℕ) → n < 2 ^ 31 → Takes n (sent n ∷ [])
at_once-Takes n fits = record {
  counts = n ∷ [];
  more = [];
  takes = refl;
  fits = (fits, tt);
  whole = omega arith;
}

-- The largest length, with a buffer of 15 bytes.
abbrev huge : CommandHeader
huge = record (header 4) { command_len = 18446744073709551615 }

huge-arrives :
    recv_all false 16 (whole host huge []).header ≡ returned (ok (header_bytes host huge))
huge-arrives = rw append-nil at (
    recv_all-joined (header_bytes host huge ∷ []) [] 16
      (omega (arith, length-header_bytes host huge), tt)
      (rw append-nil (length-header_bytes host huge)))

huge-IsHeader : IsHeader huge
huge-IsHeader = record { prefix = refl; command = omega arith; command_len = omega arith }

abbrev small_objects : Allocator
small_objects n = leb n 16

abbrev one_byte : Incoming
one_byte = record { header = received (header_bytes host huge) ∷ []; body = received (7 ∷ []) ∷ [] }

server_receive_command_unchecked_example :
    (server_receive_command small_objects host 4 one_byte ≡ done fault)
    ↔ (IsTooSmall small_objects huge × (0 < 18446744073709551615) × (delivers one_byte.body ≡ true))
server_receive_command_unchecked_example =
    server_receive_command_unchecked small_objects host huge one_byte huge-IsHeader refl
      huge-arrives
