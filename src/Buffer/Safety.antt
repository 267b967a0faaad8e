-- ===== src/Buffer/Safety.antt =====
-- Parsers that stay inside the buffer: no fault, and the cursor keeps its end.
use leocoin.Prelude.{
  ℕ, ◌+◌, ◌≤◌, ◌≡◌, ◌≢◌, refl, ap, List, arith, leb, length, length-append, split_at?-sound,
  split_at?-some, some, none, true, false, Bool,
}
use leocoin.Result.{
  Result, ok, err, fault, ReturnCode, guard, failure_buffer_too_small, Pointer, Out, null, given,
  writable,
}
use leocoin.Endian.Memory.{Host}
use leocoin.Buffer.{
  Cursor, cursor, Parser, pure, ◌>>=◌, lift, run, check_room, take, field, advance, read_u64,
  read_net,
}

-- The result is no fault, and an `ok` leaves a cursor whose memory ends where it ended.
abbrev pub Inside : {A : Type 0} → ℕ → Result (A × Cursor) → Type 0
Inside total (ok (a, c)) = c.offset + length c.rest ≡ total
Inside total (err e) = Unit
Inside total fault = ⊥

pub record IsSafe {A : Type 0} (total : ℕ) (p : Parser A) : Type 0 where
  pub at : (c : Cursor) → c.offset + length c.rest ≡ total → Inside total (p c)

module _ {A : Type 0} (total : ℕ) where
  pub IsSafe-pure : (a : A) → IsSafe total (pure a)
  IsSafe-pure a = record { at = λ c h. h }

  pub IsSafe-lift : (r : Result A) → r ≢ fault → IsSafe total (lift r)
  IsSafe-lift (ok a) n = record { at = λ c h. h }
  IsSafe-lift (err e) n = record { at = λ c h. tt }
  IsSafe-lift fault n = absurd (n refl)

pub Inside-then :
    {A B : Type 0} (total : ℕ) (r : Result (A × Cursor)) (f : A → Parser B)
    → Inside total r
    → ((a : A) → IsSafe total (f a))
    → Inside total (leocoin.Buffer.then r f)
Inside-then total (ok (a, c)) f h k = (k a).at c h
Inside-then total (err e) f h k = tt
Inside-then total fault f h k = absurd h

pub IsSafe-bind :
    {A B : Type 0} (total : ℕ) (p : Parser A) (f : A → Parser B)
    → IsSafe total p
    → ((a : A) → IsSafe total (f a))
    → IsSafe total (p >>= f)
IsSafe-bind total p f sp sf = record { at = λ c h. Inside-then total (p c) f (sp.at c h) sf }

-- A check that fails ends the reading, so only what follows one that passes matters.
pub Inside-guard :
    {A : Type 0} (total : ℕ) (b : Bool) (e : ReturnCode) (f : Unit {0} → Parser A) (c : Cursor)
    → (b ≡ true → Inside total (f tt c))
    → Inside total ((lift (guard b e) >>= f) c)
Inside-guard total true e f c k = k refl
Inside-guard total false e f c k = tt

-- A read of `n` bytes is safe where the memory holds them.
pub take-Inside :
    (total n : ℕ) (c : Cursor)
    → c.offset + length c.rest ≡ total
    → c.offset + n ≤ total
    → Inside total (take n c)
unfolding take
take-Inside total n c h room =
    let ((front, back), e) = split_at?-some n c.rest (omega arith) in
    let (whole, l) = split_at?-sound n c.rest front back e in
    rw (e, advance) (omega (arith, ap length whole, length-append front back))

-- The check before the read makes a field safe, if `buffer_size` bytes of the buffer are memory.
pub IsSafe-field : (total size n : ℕ) → size ≤ total → IsSafe total (field size n)
unfolding field check_room
IsSafe-field total size n fits = record {
  at = λ c h.
      Inside-guard total (leb (c.offset + n) size) failure_buffer_too_small (λ _. take n) c
        λ room. take-Inside total n c h (ground arith);
}

module _ (host : Host) (total size : ℕ) (fits : size ≤ total) where
  pub IsSafe-read_u64 : IsSafe total (read_u64 host size)
  unfolding read_u64
  IsSafe-read_u64 =
      IsSafe-bind total _ _ (IsSafe-field total size 8 fits) λ bytes. IsSafe-pure total _

  pub IsSafe-read_net : (n : ℕ) → IsSafe total (read_net host size n)
  unfolding read_net
  IsSafe-read_net n =
      IsSafe-bind total _ _ (IsSafe-field total size n fits) λ bytes. IsSafe-pure total _

value_of-ne-fault :
    {A : Type 0} (total : ℕ) (r : Result (A × Cursor))
    → Inside total r
    → leocoin.Buffer.value_of r ≢ fault
value_of-ne-fault total (ok (a, c)) h e = ground arith
value_of-ne-fault total (err x) h e = ground arith
value_of-ne-fault total fault h e = absurd h

-- A safe parser never faults on a buffer of that many bytes, nor on NULL.
pub run-ne-fault :
    {A : Type 0} (p : Parser A) (buffer : Pointer (List ℕ))
    → ((bytes : List ℕ) → buffer ≡ some bytes → IsSafe (length bytes) p)
    → run p buffer ≢ fault
run-ne-fault p none safe = λ e. ground arith
run-ne-fault p (some bytes) safe =
    value_of-ne-fault (length bytes) _ ((safe bytes refl).at (cursor 0 bytes) (omega arith))

pub guard-ne-fault : (b : Bool) (e : ReturnCode) → guard b e ≢ fault
guard-ne-fault true e h = ground arith
guard-ne-fault false e h = ground arith

writable-ne-fault : (o : Out) → writable o ≢ fault
writable-ne-fault null h = ground arith
writable-ne-fault given h = ground arith

pub IsSafe-out :
    {A : Type 0} (total : ℕ) (out : Out) (p : Parser A)
    → IsSafe total p
    → IsSafe total (lift (writable out) >>= λ _. p)
IsSafe-out total out p safe =
    IsSafe-bind total _ _ (IsSafe-lift total _ (writable-ne-fault out)) (λ _. safe)
