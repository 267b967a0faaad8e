-- ===== src/Networking/Safety.antt =====
-- No input makes a deserializer of src/networking.c read outside its buffer.
use leocoin.Prelude.{
  ℕ, suc, ◌+◌, ◌%◌, ◌≤◌, ◌<◌, ◌^◌, ◌≡◌, ◌≢◌, true, some, List, [], ◌∷◌, arith, leb, length, ◌==◌,
}
use leocoin.Result.{
  fault, Pointer, Out, Allocator, failure_buffer_too_small, failure_invalid_command_prefix,
  failure_could_not_malloc,
}
use leocoin.Endian.Memory.{Host}
use leocoin.Buffer.{Cursor, cursor, check_room, take, take_byte}
use leocoin.Buffer.Safety.{
  Inside, Inside-guard, IsSafe, IsSafe-pure, IsSafe-lift, IsSafe-bind, IsSafe-field,
  IsSafe-read_u64, IsSafe-read_net, Inside-then, take-Inside, run-ne-fault, guard-ne-fault,
  IsSafe-out,
}
use leocoin.Networking.{command_prefix}
use leocoin.Networking.Deserialize.{
  read_prefix, read_header, read_command, read_register_peer, check_data, read_data,
  read_send_peer_list, read_send_blockchain, command_header_deserialize,
  command_register_peer_deserialize, command_send_peer_list_deserialize,
  command_send_blockchain_deserialize,
}

-- The prefix loop reads at most as many bytes as were checked before it.
read_prefix-Inside :
    (total : ℕ) (es : List ℕ) (c : Cursor)
    → c.offset + length c.rest ≡ total
    → c.offset + length es ≤ total
    → Inside total (read_prefix es c)
unfolding read_prefix take_byte
read_prefix-Inside total [] c h room = h
read_prefix-Inside total (e ∷ es) c h room =
    byte c.offset c.rest h room (λ c'. read_prefix-Inside total es c')
  where
    byte :
        (off : ℕ) (rest : List ℕ)
        → off + length rest ≡ total
        → off + suc (length es) ≤ total
        → ((c' : Cursor)
            → c'.offset + length c'.rest ≡ total
            → c'.offset + length es ≤ total
            → Inside total (read_prefix es c'))
        → Inside total (read_prefix (e ∷ es) (cursor off rest))
    byte off [] h room ih = absurd (omega arith)
    byte off (b ∷ bs) h room ih =
        Inside-guard total (b == e) failure_invalid_command_prefix _ (cursor (off + 1) bs) λ _.
          Inside-then total (read_prefix es (cursor (off + 1) bs)) _
            (ih (cursor (off + 1) bs) (omega arith) (omega arith))
            (λ bs'. IsSafe-pure total (b ∷ bs'))

module _ (host : Host) (total size : ℕ) (fits : size ≤ total) where
  IsSafe-read_header : IsSafe total (read_header host size)
  unfolding read_header check_room
  IsSafe-read_header = record {
    at = λ c h. Inside-guard total (leb (c.offset + 4) size) failure_buffer_too_small _ c λ room.
        Inside-then total (read_prefix command_prefix c) _
          (read_prefix-Inside total command_prefix c h (ground arith))
          λ prefix. IsSafe-bind total _ _ (IsSafe-read_net host total size fits 4) λ command.
            IsSafe-bind total _ _ (IsSafe-read_u64 host total size fits)
              λ command_len. IsSafe-pure total _;
  }

  IsSafe-read_command : (expected : ℕ) → IsSafe total (read_command host size expected)
  unfolding read_command
  IsSafe-read_command expected = IsSafe-bind total _ _ IsSafe-read_header λ header.
      IsSafe-bind total _ _ (IsSafe-lift total _ (guard-ne-fault _ _)) λ _. IsSafe-pure total header

  IsSafe-read_register_peer : IsSafe total (read_register_peer host size)
  unfolding read_register_peer
  IsSafe-read_register_peer = IsSafe-bind total _ _ (IsSafe-read_command _) λ _.
      IsSafe-bind total _ _ (IsSafe-read_net host total size fits 2) λ _.
        IsSafe-bind total _ _ (IsSafe-read_net host total size fits 2) λ _.
          IsSafe-bind total _ _ (IsSafe-read_net host total size fits 4) λ _.
            IsSafe-bind total _ _ (IsSafe-field total size 16 fits) λ _.
              IsSafe-bind total _ _ (IsSafe-read_net host total size fits 4)
                λ _. IsSafe-pure total _

-- `calloc` never grants an object of more than `PTRDIFF_MAX` bytes.
abbrev pub GrantsObjects : Allocator → Type 0
GrantsObjects grants = (n : ℕ) → grants n ≡ true → n < 2 ^ 63

module _ (grants : Allocator) (host : Host) (total size : ℕ) (fits : size ≤ total)
    (small : total < 2 ^ 63) (objects : GrantsObjects grants) where
  -- The check wraps at 64 bits, and the allocation refuses the lengths at which it does.
  IsSafe-read_data : IsSafe total (read_data grants host size)
  unfolding read_data check_data
  IsSafe-read_data = IsSafe-bind total _ _ (IsSafe-read_u64 host total size fits) λ len. record {
    at = λ c h.
        Inside-guard total (leb ((c.offset + len) % 2 ^ 64) size) failure_buffer_too_small _ c
          λ room. Inside-guard total (grants len) failure_could_not_malloc _ c λ granted.
            let bound : len < 2 ^ 63 = objects len granted in
            Inside-then total (take len c) _ (take-Inside total len c h (ground arith))
              (λ bytes. IsSafe-pure total (len, bytes));
  }

  IsSafe-read_send_peer_list : IsSafe total (read_send_peer_list grants host size)
  unfolding read_send_peer_list
  IsSafe-read_send_peer_list =
      IsSafe-bind total _ _ (IsSafe-read_command host total size fits _)
        λ header. IsSafe-bind total _ _ IsSafe-read_data λ (len, bytes). IsSafe-pure total _

  IsSafe-read_send_blockchain : IsSafe total (read_send_blockchain grants host size)
  unfolding read_send_blockchain
  IsSafe-read_send_blockchain =
      IsSafe-bind total _ _ (IsSafe-read_command host total size fits _)
        λ header. IsSafe-bind total _ _ IsSafe-read_data λ (len, bytes). IsSafe-pure total _

-- Whatever the bytes, the deserializers of a header and of a registration read no byte outside the
-- buffer, if the buffer has the `buffer_size` bytes that the caller says; so with NULL arguments.
pub command_deserialize_in_bounds :
    (host : Host) (out : Out) (buffer : Pointer (List ℕ)) (size : ℕ)
    → ((bytes : List ℕ) → buffer ≡ some bytes → size ≤ length bytes)
    → (command_header_deserialize host out buffer size ≢ fault)
      × (command_register_peer_deserialize host out buffer size ≢ fault)
unfolding command_header_deserialize command_register_peer_deserialize
command_deserialize_in_bounds host out buffer size holds = (
  run-ne-fault _ buffer
      (λ bytes e. IsSafe-out (length bytes) out _ (IsSafe-read_header host _ size (holds bytes e))),
  run-ne-fault _ buffer (λ bytes e.
      IsSafe-out (length bytes) out _ (IsSafe-read_register_peer host _ size (holds bytes e))),
)

-- Whatever the bytes, the deserializers of the two commands that carry data, whose length the sender
-- chooses, read no byte outside the buffer, also where the sum of `total_read_size` and that length
-- wraps: if the buffer has the `buffer_size` bytes, and neither it nor what the allocator grants is
-- an object of 2^63 bytes or more.
pub command_send_data_deserialize_in_bounds :
    (grants : Allocator) (host : Host) (out : Out) (buffer : Pointer (List ℕ)) (size : ℕ)
    → ((bytes : List ℕ) → buffer ≡ some bytes → (size ≤ length bytes) × (length bytes < 2 ^ 63))
    → GrantsObjects grants
    → (command_send_peer_list_deserialize grants host out buffer size ≢ fault)
      × (command_send_blockchain_deserialize grants host out buffer size ≢ fault)
unfolding command_send_peer_list_deserialize command_send_blockchain_deserialize
command_send_data_deserialize_in_bounds grants host out buffer size holds objects = (
  run-ne-fault _ buffer (λ bytes e.
      let (fits, small) = holds bytes e in
      IsSafe-out (length bytes) out _
        (IsSafe-read_send_peer_list grants host _ size fits small objects)),
  run-ne-fault _ buffer (λ bytes e.
      let (fits, small) = holds bytes e in
      IsSafe-out (length bytes) out _
        (IsSafe-read_send_blockchain grants host _ size fits small objects)),
)
