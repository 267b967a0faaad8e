-- ===== src/Session.antt =====
-- How src/consensus_peer_server_thread.c, src/peer_discovery_bootstrap_server_thread.c and
-- src/peer_discovery_thread.c receive a command: its header, then as many bytes as the header says.
pub mod Room
pub mod Arrives
pub mod Unchecked
use leocoin.Prelude.{
  ℕ, ◌+◌, ◌-◌, ◌%◌, ◌^◌, Bool, true, false, ◌&&◌, ◌==◌, ltb, List, [], ◌∷◌, ◌++◌, none, some,
  length, if◌then◌else◌,
}
use leocoin.Result.{
  Result, ok, fault, Pointer, Allocator, malloc, guard, given, failure_invalid_command,
}
use leocoin.Endian.Memory.{Host}
use leocoin.Networking.{sizeof_command_header}
use leocoin.Networking.Deserialize.{command_header_deserialize}
use leocoin.Networking.Sockets.{Received, recv_failed, received, int_bits, is_negative, recv_all}
use leocoin.Io.{Io, done, ◌>>=◌, ◌>>◌, of_loop, or_network}

-- The size of the buffer for a whole command, a sum of `uint64_t`.
abbrev pub command_size : ℕ → ℕ
command_size command_len = (sizeof_command_header + command_len) % 2 ^ 64

-- What `recv_buf` is behind its `realloc`: NULL, or a buffer with this much room behind the header.
abbrev pub Room : Type 0
Room = Pointer ℕ

-- None where the sum has wrapped.
abbrev pub room_for : (command_len : ℕ) → ℕ
room_for command_len = command_size command_len - sizeof_command_header

-- The `realloc` with its result checked as in the discovery thread, and as the servers do it,
-- unchecked.
unfoldable pub realloc_checked : Allocator → ℕ → Io Room
realloc_checked grants command_len = do
  done (malloc grants (command_size command_len))
  done (ok (some (room_for command_len)))

unfoldable pub realloc_unchecked : Allocator → ℕ → Io Room
realloc_unchecked grants command_len =
    done (ok (if grants (command_size command_len) then some (room_for command_len) else none))

abbrev pub least : ℕ → ℕ → ℕ
least m n = if ltb n m then n else m

-- Whether `recv_all` puts a byte behind the first `room` ones, where it waits for `len` bytes and has
-- `total` of them: `recv` puts at most as many there as are asked for.
unfoldable pub overruns : (room len : ℕ) → List Received → (total : ℕ) → Bool
overruns room len [] total = false
overruns room len (recv_failed ∷ answers) total = false
overruns room len (received bytes ∷ answers) total =
    let rest = overruns room len answers (total + int_bits (length bytes)) in
    let put = least (length bytes) (len - total) in
    if total == len
    then false
    else if ltb 0 put && ltb room (total + put)
    then true
    else if is_negative (length bytes)
    then false
    else rest

abbrev pub room_of : Room → ℕ
room_of none = 0
room_of (some room) = room

-- `recv_all` behind the header: a fault where a byte is put where there is no room, which is anywhere
-- for a pointer made of NULL.
unfoldable pub recv_behind_header : Room → (len : ℕ) → List Received → Io (List ℕ)
unfolding overruns
recv_behind_header room len answers =
    if overruns (room_of room) len answers 0
    then done fault
    else of_loop (recv_all false len answers)

-- The buffer as it is passed on, which may be NULL where no byte was to be received.
abbrev pub received_in : Room → List ℕ → Pointer (List ℕ)
received_in none buffer = none
received_in (some room) buffer = some buffer

-- The answers of the socket to the two calls of `recv_all`.
pub record Incoming : Type 0 where
  pub header : List Received
  pub body : List Received

-- What the three functions share. `checked` is what they do with the result of a `recv_all`, and
-- `realloc` how they enlarge the buffer. The result is the buffer, and its size as it is passed on.
unfoldable pub receive_command :
    (checked : Io (List ℕ) → Io (List ℕ))
    → (realloc : ℕ → Io Room) → Allocator
    → Host
    → (expected : ℕ) → Incoming
    → Io (Pointer (List ℕ) × ℕ)
unfolding recv_behind_header
receive_command checked realloc grants host expected incoming = do
  done (malloc grants sizeof_command_header)
  header ← checked (of_loop (recv_all false sizeof_command_header incoming.header))
  h ← done (command_header_deserialize host given (some header) sizeof_command_header)
  done (guard (h.command == expected) failure_invalid_command)
  room ← realloc h.command_len
  body ← checked (recv_behind_header room h.command_len incoming.body)
  done (ok (received_in room (header ++ body), command_size h.command_len))

-- As the two servers receive.
unfoldable pub server_receive_command :
    Allocator → Host → (expected : ℕ) → Incoming → Io (Pointer (List ℕ) × ℕ)
unfolding receive_command realloc_unchecked
server_receive_command grants host expected incoming =
    receive_command or_network (realloc_unchecked grants) grants host expected incoming

-- As the discovery thread receives.
unfoldable pub client_receive_command :
    Allocator → Host → (expected : ℕ) → Incoming → Io (Pointer (List ℕ) × ℕ)
unfolding receive_command realloc_checked
client_receive_command grants host expected incoming =
    receive_command (λ io. io) (realloc_checked grants) grants host expected incoming
