-- ===== src/Io.antt =====
-- The outcome of code that waits for a socket, and of code that changes a state besides.
use leocoin.Prelude.{ℕ, ◌≡◌, refl, List}
use leocoin.Result.{Result, ok, err, fault, failure_network_function}
use leocoin.Networking.Sockets.{Loop, returned, calls_again}

-- A function that returns, or one that waits in `recv` or `send` when the answers are used up.
pub data Io (A : Type 0) : Type 0 where
  done : Result A → Io A
  waits : Io A

infixl 5 ◌>>=◌ ◌>>◌
abbrev pub ◌>>=◌ : {A B : Type 0} → Io A → (A → Io B) → Io B
done (ok a) >>= f = f a
done (err e) >>= f = done (err e)
done fault >>= f = done fault
waits >>= f = waits

abbrev pub ◌>>◌ : {B : Type 0} → Io (Unit {0}) → Io B → Io B
m >> k = m >>= λ _. k

abbrev pub of_loop : Loop → Io (List ℕ)
of_loop (returned r) = done r
of_loop calls_again = waits

-- `if (SUCCESS != return_code) { return_code = FAILURE_NETWORK_FUNCTION; goto end; }`
abbrev pub or_network : {A : Type 0} → Io A → Io A
or_network (done (ok a)) = done (ok a)
or_network (done (err e)) = done (err failure_network_function)
or_network (done fault) = done fault
or_network waits = waits

-- Code that goes on with a state where the code before it, which leaves the state alone, succeeds.
abbrev pub then_with : {S A B : Type 0} → S → Io A → (A → S × Io B) → S × Io B
then_with s (done (ok a)) f = f a
then_with s (done (err e)) f = (s, done (err e))
then_with s (done fault) f = (s, done fault)
then_with s waits f = (s, waits)

-- What holds of the result where there is one.
pub record Ensures {A : Type 0} (P : A → Type 0) (m : Io A) : Type 0 where
  pub at_result : (a : A) → m ≡ done (ok a) → P a

pub Ensures-done :
    {A : Type 0} (P : A → Type 0) (r : Result A) → ((a : A) → r ≡ ok a → P a) → Ensures P (done r)
Ensures-done P r h = record { at_result = λ a e. h a cc }

-- A postcondition that says nothing.
abbrev pub IsAny : {A : Type 0} → A → Type 0
IsAny a = Unit {0}

pub Ensures-IsAny : {A : Type 0} (m : Io A) → Ensures IsAny m
Ensures-IsAny m = record { at_result = λ a e. tt }

pub Ensures-bind :
    {A B : Type 0} (P : B → Type 0) (m : Io A) (f : A → Io B)
    → ((a : A) → m ≡ done (ok a) → Ensures P (f a))
    → Ensures P (m >>= f)
Ensures-bind P (done (ok a)) f h = h a refl
Ensures-bind P (done (err e)) f h = record { at_result = λ b q. absurd (cc) }
Ensures-bind P (done fault) f h = record { at_result = λ b q. absurd (cc) }
Ensures-bind P waits f h = record { at_result = λ b q. absurd (cc) }

-- What the state is afterwards, where the code before it has a postcondition.
pub then_with-Ensures :
    {S A B : Type 0} (P : A → Type 0) (Q : S → Type 0) (s : S) (m : Io A) (f : A → S × Io B)
    → Ensures P m
    → Q s
    → ((a : A) → P a → Q (f a).0)
    → Q (then_with s m f).0
then_with-Ensures P Q s (done (ok a)) f p q h = h a (p.at_result a refl)
then_with-Ensures P Q s (done (err e)) f p q h = q
then_with-Ensures P Q s (done fault) f p q h = q
then_with-Ensures P Q s waits f p q h = q
