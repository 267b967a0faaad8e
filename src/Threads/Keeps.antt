-- ===== src/Threads/Keeps.antt =====
-- What the handler keeps, its thread keeps.
use leocoin.Prelude.{◌≡◌, refl, Bool, true, false, List, [], ◌∷◌, All, if◌then◌else◌}
use leocoin.Result.{Result, ok, err, fault}
use leocoin.Io.{Io, done, waits}
use leocoin.Threads.{
  Thread, Run, returns, runs, faults, Listener, listening, Poll, poll_failed, timed_out,
  accept_failed, other_length, names_not_found, connected, Round, exit_with, go_on, serve_loop,
  serve,
}

-- The thread as it is at the end, or when nothing more is known.
abbrev pub thread_of : {S : Type 0} → Run S → Thread S
thread_of (returns t code) = t
thread_of (runs t) = t
thread_of (faults t) = t

-- Whether a thread has set its flag, where it has returned.
abbrev pub says_ready : {S : Type 0} → Run S → Bool
says_ready (returns t code) = t.exit_ready
says_ready (runs t) = true
says_ready (faults t) = true

-- A request is one of those that are meant.
abbrev pub OfPoll : {R : Type 0} → (R → Type 0) → Poll R → Type 0
OfPoll Q (connected request) = Q request
OfPoll Q poll_failed = Unit {0}
OfPoll Q timed_out = Unit {0}
OfPoll Q accept_failed = Unit {0}
OfPoll Q other_length = Unit {0}
OfPoll Q names_not_found = Unit {0}

abbrev pub OfRequest : {R : Type 0} → (R → Type 0) → Round (Poll R) → Type 0
OfRequest Q r = OfPoll Q r.event

-- What holds of the shared state however a thread runs, and that it says so where it returns.
pub record IsKept {S : Type 0} (P : S → Type 0) (r : Run S) : Type 0 where
  pub shared : P (thread_of r).shared
  pub exit_ready : says_ready r ≡ true

module _ {S : Type 0} (P : S → Type 0) where
  IsKept-exit_with :
      (g : Bool) (t : Thread S) (code : Result (Unit {0}))
      → P t.shared
      → IsKept P (exit_with g t code)
  unfolding exit_with
  IsKept-exit_with true t code h = record { shared = h; exit_ready = refl }
  IsKept-exit_with false t code h = record { shared = h; exit_ready = refl }

  IsKept-runs : (t : Thread S) → P t.shared → IsKept P (runs t)
  IsKept-runs t h = record { shared = h; exit_ready = refl }

  IsKept-faults : (t : Thread S) → P t.shared → IsKept P (faults t)
  IsKept-faults t h = record { shared = h; exit_ready = refl }

  IsKept-if : (b : Bool) (r s : Run S) → IsKept P r → IsKept P s → IsKept P (if b then r else s)
  IsKept-if true r s h k = h
  IsKept-if false r s h k = k

  IsKept-go_on :
      {B : Type 0} (t : Thread S) (io : Io B) (f : Result (Unit {0}) → Run S)
      → P t.shared
      → ((code : Result (Unit {0})) → IsKept P (f code))
      → IsKept P (go_on t io f)
  IsKept-go_on t (done (ok b)) f h k = k (ok tt)
  IsKept-go_on t (done (err code)) f h k = k (err code)
  IsKept-go_on t (done fault) f h k = IsKept-faults t h
  IsKept-go_on t waits f h k = IsKept-runs t h

module _ {S R B : Type 0} (handle : R → S → S × Io B) (g : Bool) (P : S → Type 0) (Q : R → Type 0)
    (keeps : (request : R) (s : S) → Q request → P s → P (handle request s).0) where
  serve_loop-IsKept :
      (rs : List (Round (Poll R))) (code : Result (Unit {0})) (t : Thread S)
      → All (OfRequest Q) rs
      → P t.shared
      → IsKept P (serve_loop handle g rs code t)
  unfolding serve_loop
  serve_loop-IsKept [] code t q h = IsKept-runs P t h
  serve_loop-IsKept (r ∷ rs) code t (q, qs) h =
      let ih : (c : Result (Unit {0})) (t' : Thread S)
          → P t'.shared
          → IsKept P (serve_loop handle g rs c t') =
        λ c t' h'. serve_loop-IsKept rs c t' qs h' in
      go ih r.event refl
    where
      go :
          ((c : Result (Unit {0})) (t' : Thread S)
            → P t'.shared
            → IsKept P (serve_loop handle g rs c t'))
          → (e : Poll R) → r.event ≡ e
          → IsKept P (serve_loop handle g (r ∷ rs) code t)
      go ih poll_failed e = rw e (IsKept-exit_with P g t _ h)
      go ih timed_out e =
          rw e (IsKept-if P r.should_stop _ _ (IsKept-exit_with P g t code h) (ih code t h))
      go ih accept_failed e = rw e (IsKept-exit_with P g t _ h)
      go ih other_length e = rw e (IsKept-exit_with P g t _ h)
      go ih names_not_found e = rw e (IsKept-exit_with P g t _ h)
      go ih (connected request) e =
          let s' = (handle request t.shared).0 in
          let t' = record t { shared = s' } in
          let h' : P s' = keeps request t.shared (rw e at q) h in
          rw e (
            IsKept-go_on P t' (handle request t.shared).1 _ h'
              λ c. IsKept-if P r.should_stop _ _ (IsKept-exit_with P g t' c h') (ih c t' h'))

  -- Whatever happens to the thread of a server, its shared state keeps what every request keeps, and
  -- where the thread returns it has said so.
  pub serve-IsKept :
      (l : Listener) (should_stop : Bool) (rs : List (Round (Poll R))) (t : Thread S)
      → All (OfRequest Q) rs
      → P t.shared
      → IsKept P (serve handle g l should_stop rs t)
  unfolding serve
  serve-IsKept l should_stop rs t qs h = go (listening l) refl
    where
      go : (e : Result (Unit {0})) → listening l ≡ e → IsKept P (serve handle g l should_stop rs t)
      go (ok u) e =
          rw (serve, e)
            (IsKept-if P should_stop _ _ (IsKept-exit_with P g t (ok tt) h)
              (serve_loop-IsKept rs (ok tt) t qs h))
      go (err code) e = rw (serve, e) (IsKept-exit_with P g t (err code) h)
      go fault e = rw (serve, e) (IsKept-faults P t h)

-- A condition that says nothing holds of all requests.
OfPoll-any : {R : Type 0} (e : Poll R) → OfPoll {R = R} (λ _. Unit {0}) e
OfPoll-any poll_failed = tt
OfPoll-any timed_out = tt
OfPoll-any accept_failed = tt
OfPoll-any other_length = tt
OfPoll-any names_not_found = tt
OfPoll-any (connected request) = tt

pub All-OfRequest :
    {R : Type 0} (rs : List (Round (Poll R))) → All (OfRequest {R = R} (λ _. Unit {0})) rs
All-OfRequest [] = tt
All-OfRequest (r ∷ rs) = (OfPoll-any r.event, All-OfRequest rs)
