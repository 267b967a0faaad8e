-- ===== src/Threads/Stops.antt =====
-- The thread of a server answers what arrives, and returns when it is told to stop.
use leocoin.Prelude.{◌≡◌, refl, ◌∙◌, Bool, true, false, Option, none, some, List, [], ◌∷◌, ◌++◌}
use leocoin.Result.{Result, ok, err, fault}
use leocoin.Io.{Io, done, waits}
use leocoin.Threads.{
  Thread, Run, returns, Listener, listening, Poll, timed_out, connected, Round, exit_with, go_on,
  serve_loop, serve,
}

-- Whether a handler ends with a code.
abbrev pub ends : {B : Type 0} → Io B → Bool
ends (done (ok b)) = true
ends (done (err code)) = true
ends (done fault) = false
ends waits = false

-- The code with which it ends.
abbrev pub code_of : {B : Type 0} → Io B → Result (Unit {0})
code_of (done (ok b)) = ok tt
code_of (done (err code)) = err code
code_of (done fault) = fault
code_of waits = fault

module _ {S R B : Type 0} (handle : R → S → S × Io B) where
  -- A request that arrives, or `poll` times out.
  abbrev pub event_of : Option R → Poll R
  event_of none = timed_out
  event_of (some r) = connected r

  -- The events `ps` while the flag is unset, then `last`, behind which it is set, then any others.
  abbrev pub arriving_requests :
      List (Option R) → (last : Option R) → (later : List (Round (Poll R))) → List (Round (Poll R))
  arriving_requests [] last later = record { event = event_of last; should_stop = true } ∷ later
  arriving_requests (p ∷ ps) last later =
      record { event = event_of p; should_stop = false } ∷ arriving_requests ps last later

  -- The requests handled one after the other, with the code of the last one.
  unfoldable pub handle_all : List (Option R) → Result (Unit {0}) → S → S × Result (Unit {0})
  handle_all [] code s = (s, code)
  handle_all (none ∷ ps) code s = handle_all ps code s
  handle_all (some r ∷ ps) code s = handle_all ps (code_of (handle r s).1) (handle r s).0

  -- Each of them ends with a code.
  unfoldable pub IsAnswered : List (Option R) → S → Type 0
  IsAnswered [] s = Unit {0}
  IsAnswered (none ∷ ps) s = IsAnswered ps s
  IsAnswered (some r ∷ ps) s = (ends (handle r s).1 ≡ true) × IsAnswered ps (handle r s).0

  go_on_lem :
      (t : Thread S) (io : Io B) (f : Result (Unit {0}) → Run S)
      → ends io ≡ true
      → go_on t io f ≡ f (code_of io)
  go_on_lem t (done (ok b)) f e = refl
  go_on_lem t (done (err code)) f e = refl
  go_on_lem t (done fault) f e = absurd (cc)
  go_on_lem t waits f e = absurd (cc)

  serve_loop_lem :
      (ps : List (Option R)) (last : Option R) (later : List (Round (Poll R)))
      (code : Result (Unit {0})) (t : Thread S)
      → IsAnswered (ps ++ last ∷ []) t.shared
      → serve_loop handle true (arriving_requests ps last later) code t
        ≡ returns
            (record { shared = (handle_all (ps ++ last ∷ []) code t.shared).0; exit_ready = true })
            (handle_all (ps ++ last ∷ []) code t.shared).1
  unfolding serve_loop exit_with handle_all IsAnswered
  serve_loop_lem [] none later code t a = refl
  serve_loop_lem [] (some r) later code t (a, _) =
      let t' = record t { shared = (handle r t.shared).0 } in go_on_lem t' (handle r t.shared).1 _ a
  serve_loop_lem (none ∷ ps) last later code t a = serve_loop_lem ps last later code t a
  serve_loop_lem (some r ∷ ps) last later code t (a, as') =
      let t' = record t { shared = (handle r t.shared).0 } in
      go_on_lem t' (handle r t.shared).1 _ a
      ∙ serve_loop_lem ps last later (code_of (handle r t.shared).1) t' as'

  -- A server whose socket listens and whose requests end, with errors or without, returns exactly in
  -- the round behind which it reads that `should_stop` is set, whether that round handles a request or
  -- `poll` times out in it, and whatever would arrive later: its state is that after all requests up
  -- to then, in their order, its flag is set, and its code is that of the last request. Memory for the
  -- code is granted, and the flag is not set before the loop.
  pub serve-handle_all :
      (l : Listener) (ps : List (Option R)) (last : Option R) (later : List (Round (Poll R)))
      (t : Thread S)
      → listening l ≡ ok tt
      → IsAnswered (ps ++ last ∷ []) t.shared
      → serve handle true l false (arriving_requests ps last later) t
        ≡ returns
            (record {
              shared = (handle_all (ps ++ last ∷ []) (ok tt) t.shared).0;
              exit_ready = true;
            })
            (handle_all (ps ++ last ∷ []) (ok tt) t.shared).1
  unfolding serve
  serve-handle_all l ps last later t listens a =
      rw (serve, listens) (serve_loop_lem ps last later (ok tt) t a)
