-- ===== src/Session/Unchecked.antt =====
-- When a server writes where it may not.
use leocoin.Prelude.{
  ℕ, ◌+◌, ◌≤◌, ◌<◌, ◌^◌, ◌≡◌, ◌≢◌, ◌⊎◌, inl, inr, ◌↔◌, refl, sym, ◌∙◌, true, false, none, some,
  List, [], ◌++◌, if◌then◌else◌, arith, Bool-cases, ◌==◌, leb,
}
use leocoin.Result.{ok, err, fault, Allocator}
use leocoin.Endian.Memory.{Host}
use leocoin.Networking.{CommandHeader, IsHeader}
use leocoin.Networking.Roundtrip.{header_bytes}
use leocoin.Networking.Sockets.{Received, Loop, returned, calls_again, recv_loop, recv_all}
use leocoin.Io.{done, ◌>>=◌, of_loop, or_network}
use leocoin.Session.{
  Incoming, Room, command_size, room_for, room_of, received_in, overruns, recv_behind_header,
  receive_command, realloc_unchecked, server_receive_command,
}
use leocoin.Session.Room.{delivers, overruns-whole, overruns-delivers, overruns-some, recv_loop_lem}
use leocoin.Session.Arrives.{header_read}

module _ {A : Type 0} (k : List ℕ → A) where
  loop_lem :
      (l : Loop)
      → l ≢ returned fault
      → (or_network (of_loop l) >>= λ body. done (ok (k body))) ≢ done fault
  loop_lem (returned (ok body)) h e = absurd (cc)
  loop_lem (returned (err code)) h e = absurd (cc)
  loop_lem (returned fault) h e = absurd (h refl)
  loop_lem calls_again h e = absurd (cc)

  -- What is behind the `realloc` faults exactly where a byte is put outside the buffer.
  recv_behind_header_iff :
      (room : Room) (len : ℕ) (answers : List Received)
      → ((or_network (recv_behind_header room len answers) >>= λ body. done (ok (k body)))
          ≡ done fault)
        ↔ (overruns (room_of room) len answers 0 ≡ true)
  unfolding recv_behind_header recv_all
  recv_behind_header_iff room len answers =
      elim (Bool-cases (overruns (room_of room) len answers 0)) [
        | inl outside ↦ ((λ _. outside), (λ _. rw outside refl))
        | inr within ↦ rw within (
          (λ e. absurd (loop_lem (recv_loop len answers []) (recv_loop_lem len answers []) e)),
          (λ e. absurd (cc)),
        )
      ]

-- The buffer is refused, or its size has wrapped around.
abbrev pub IsTooSmall : Allocator → CommandHeader → Type 0
IsTooSmall grants h = (grants (command_size h.command_len) ≡ false) ⊎ (2 ^ 64 ≤ 16 + h.command_len)

module _ (grants : Allocator) (host : Host) (h : CommandHeader) (incoming : Incoming)
    (v : IsHeader h) (g16 : grants 16 ≡ true)
    (arrived : recv_all false 16 incoming.header ≡ returned (ok (header_bytes host h))) where
  same : (h.command == h.command) ≡ true
  same = ground arith

  -- The buffer behind the `realloc`.
  abbrev room : Room
  room = if grants (command_size h.command_len) then some (room_for h.command_len) else none

  IsTooSmall-room : IsTooSmall grants h → room_of room ≡ 0
  IsTooSmall-room (inl refused) = rw refused refl
  IsTooSmall-room (inr large) =
      let nothing : room_for h.command_len ≡ 0 = let small = v.command_len in ground arith in
      elim (Bool-cases (grants (command_size h.command_len))) [
        | inl granted ↦ rw granted nothing
        | inr refused ↦ rw refused refl
      ]

  room-cases : IsTooSmall grants h ⊎ (room_of room ≡ h.command_len)
  room-cases = elim (Bool-cases (grants (command_size h.command_len))) [
    | inr refused ↦ inl (inl refused)
    | inl granted ↦ elim (Bool-cases (leb (2 ^ 64) (16 + h.command_len))) [
      | inl large ↦ inl (inr (ground arith))
      | inr fits ↦
          let whole : room_for h.command_len ≡ h.command_len = ground arith in
          inr (rw granted whole)
    ]
  ]

  overruns_iff :
      (overruns (room_of room) h.command_len incoming.body 0 ≡ true)
      ↔ (IsTooSmall grants h × (0 < h.command_len) × (delivers incoming.body ≡ true))
  overruns_iff = elim room-cases [
    | inl bad ↦
        let none_left = IsTooSmall-room bad in
        (
          (λ e.
              let outside = rw none_left at e in
              let some_bytes = overruns-some h.command_len incoming.body outside in
              (
                bad,
                some_bytes,
                sym (overruns-delivers h.command_len incoming.body some_bytes) ∙ outside,
              )),
          (λ (_, some_bytes, delivered).
              rw none_left (overruns-delivers h.command_len incoming.body some_bytes ∙ delivered)),
        )
    | inr whole ↦
        let within = overruns-whole h.command_len incoming.body 0 in
        (
          (λ e. absurd (cc (rw whole at e, within))),
          (λ (bad, some_bytes, _).
              let nothing = IsTooSmall-room bad in
              absurd (omega (arith, whole, nothing, some_bytes))),
        )
  ]

  -- A server to which the header of a command arrives whole, with the command that it expects, writes
  -- through NULL or behind its buffer exactly where memory for the buffer is refused, or the length in
  -- the header makes the size of the buffer wrap around, and of the bytes that the header announces
  -- the socket delivers at least one before it fails. Otherwise it does not, whatever arrives.
  pub server_receive_command_unchecked :
      (server_receive_command grants host h.command incoming ≡ done fault)
      ↔ (IsTooSmall grants h × (0 < h.command_len) × (delivers incoming.body ≡ true))
  unfolding server_receive_command receive_command realloc_unchecked
  server_receive_command_unchecked =
      let behind =
        recv_behind_header_iff
          (λ body. (received_in room (header_bytes host h ++ body), command_size h.command_len))
          room h.command_len incoming.body in
      rw (g16, arrived, header_read host h v, same)
        ((λ e. overruns_iff.0 (behind.0 e)), (λ e. behind.1 (overruns_iff.1 e)))
