-- ===== src/Examples/Network.antt =====
-- The theorems on src/endian.c and src/networking.c at concrete values.
use leocoin.Prelude.{
  ℕ, ◌≤◌, ◌<◌, ◌^◌, ◌≡◌, ◌≢◌, refl, sym, some, List, [], ◌∷◌, arith, length, ltb→lt,
  length-replicate,
}
use leocoin.Result.{fault, given}
use leocoin.Networking.{IsHeader, IsRegisterPeer}
use leocoin.Networking.Deserialize.{
  command_header_deserialize, command_register_peer_deserialize, command_send_peer_list_deserialize,
  command_send_blockchain_deserialize,
}
use leocoin.Networking.DataBytes.{IsSendable}
use leocoin.Networking.Safety.{
  command_deserialize_in_bounds, command_send_data_deserialize_in_bounds,
}
use leocoin.Examples.Data.{host, grants_all, grants_objects, header, registration}

header-IsHeader : (c : ℕ) → c < 2 ^ 32 → IsHeader (header c)
header-IsHeader c h = record { prefix = refl; command = h; command_len = omega arith }

registration-IsRegisterPeer : IsRegisterPeer registration
registration-IsRegisterPeer = record {
  header = header-IsHeader 2 (omega arith);
  command = refl;
  sin6_family = omega arith;
  sin6_port = omega arith;
  sin6_flowinfo = omega arith;
  addr = length-replicate {A = ℕ} 16 254;
  sin6_scope_id = omega arith;
}

abbrev body : List ℕ
body = 1 ∷ 2 ∷ 3 ∷ []

body-IsSendable : (c : ℕ) → c < 2 ^ 32 → IsSendable grants_all c (header c) body
body-IsSendable c h = record {
  header = header-IsHeader c h;
  command = refl;
  fits = omega arith;
  grants_length = refl;
  grants_header = refl;
  grants_all = refl;
  grants_data = refl;
}

-- Three bytes of a header, with the right `buffer_size`.
abbrev short : List ℕ
short = b'L' ∷ b'E' ∷ b'O' ∷ []

short_holds :
    (bytes : List ℕ) → some short ≡ some bytes → (3 ≤ length bytes) × (length bytes < 2 ^ 63)
short_holds bytes e = let e' : short ≡ bytes = cc in rw (sym e') (omega arith, omega arith)

command_deserialize_in_bounds_example :
    (command_header_deserialize host given (some short) 3 ≢ fault)
    × (command_register_peer_deserialize host given (some short) 3 ≢ fault)
command_deserialize_in_bounds_example =
    command_deserialize_in_bounds host given (some short) 3 (λ bytes e. (short_holds bytes e).0)

command_send_data_deserialize_in_bounds_example :
    (command_send_peer_list_deserialize grants_objects host given (some short) 3 ≢ fault)
    × (command_send_blockchain_deserialize grants_objects host given (some short) 3 ≢ fault)
command_send_data_deserialize_in_bounds_example =
    command_send_data_deserialize_in_bounds grants_objects host given (some short) 3 short_holds
      (λ n. ltb→lt n (2 ^ 63))
