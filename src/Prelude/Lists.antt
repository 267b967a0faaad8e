-- ===== src/Prelude/Lists.antt =====
-- Lists measured and cut by native numbers, and a predicate on every element.
use Prim.Native.Nat.{ℕ, zero, suc, ◌+◌, ◌≤◌, ◌<◌, compare, Ordering}
use mathlib.Core.Path.{◌≡◌, refl, ap}
use mathlib.Core.Logic.{◌↔◌}
use mathlib.Core.List.{List, [], ◌∷◌, ◌++◌}
use mathlib.Core.Bool.{Bool, true, false, ◌&&◌}
use mathlib.Core.Option.{Option, none, some}
use native.Mathlib.Omega.{arith}

module _ {ℓ} {A : Type ℓ} where
  abbrev pub length : List A → ℕ
  length [] = 0
  length (_ ∷ xs) = suc (length xs)

  abbrev pub replicate : ℕ → A → List A
  replicate zero a = []
  replicate (suc n) a = a ∷ replicate n a

  pub length-append : (xs ys : List A) → length (xs ++ ys) ≡ length xs + length ys
  length-append [] ys = omega arith
  length-append (x ∷ xs) ys = omega (arith, length-append xs ys)

  pub length-replicate : (n : ℕ) (a : A) → length (replicate n a) ≡ n
  length-replicate zero a = refl
  length-replicate (suc n) a = ap suc (length-replicate n a)

  abbrev pub cons_front : A → Option (List A × List A) → Option (List A × List A)
  cons_front x none = none
  cons_front x (some (front, back)) = some (x ∷ front, back)

  -- The first `n` elements and the rest, or `none` where there are fewer.
  unfoldable pub split_at? : ℕ → List A → Option (List A × List A)
  split_at? zero xs = some ([], xs)
  split_at? (suc n) [] = none
  split_at? (suc n) (x ∷ xs) = cons_front x (split_at? n xs)

  abbrev pub All {κ} : (A → Type κ) → List A → Type κ
  All P [] = Unit {κ}
  All P (x ∷ xs) = P x × All P xs

module _ {ℓ} {A : Type ℓ} where
  pub split_at?-append :
      (xs ys : List A) (n : ℕ) → length xs ≡ n → split_at? n (xs ++ ys) ≡ some (xs, ys)
  unfolding split_at?
  split_at?-append [] ys zero h = refl
  split_at?-append [] ys (suc n) h = absurd (omega arith)
  split_at?-append (x ∷ xs) ys zero h = absurd (omega arith)
  split_at?-append (x ∷ xs) ys (suc n) h =
      ap (cons_front x) (split_at?-append xs ys n (omega arith))

  -- A split that succeeds cuts the list in two, the first part of the length asked for.
  pub split_at?-sound :
      (n : ℕ) (xs front back : List A)
      → split_at? n xs ≡ some (front, back)
      → (xs ≡ front ++ back) × (length front ≡ n)
  unfolding split_at?
  split_at?-sound zero xs [] back h = (ground arith, refl)
  split_at?-sound zero xs (y ∷ front) back h = absurd (ground arith)
  split_at?-sound (suc n) [] front back h = absurd (ground arith)
  split_at?-sound (suc n) (x ∷ xs) front back h = go (split_at? n xs) (split_at?-sound n xs) h
    where
      go :
          (o : Option (List A × List A))
          → ((f b : List A) → o ≡ some (f, b) → (xs ≡ f ++ b) × (length f ≡ n))
          → cons_front x o ≡ some (front, back)
          → ((x ∷ xs) ≡ front ++ back) × (length front ≡ suc n)
      go none ih e = absurd (ground arith)
      go (some (f, b)) ih e =
          let (p, q) = ih f b refl in ground (arith, ap (λ (l : List A). x ∷ l) p)

  -- The split fails exactly where the list is too short.
  pub split_at?-none : (n : ℕ) (xs : List A) → length xs < n → split_at? n xs ≡ none
  unfolding split_at?
  split_at?-none zero xs h = absurd (omega arith)
  split_at?-none (suc n) [] h = refl
  split_at?-none (suc n) (x ∷ xs) h = ap (cons_front x) (split_at?-none n xs (omega arith))

  pub split_at?-some :
      (n : ℕ) (xs : List A) → n ≤ length xs → (p : List A × List A) × (split_at? n xs ≡ some p)
  unfolding split_at?
  split_at?-some zero xs h = (([], xs), refl)
  split_at?-some (suc n) [] h = absurd (omega arith)
  split_at?-some (suc n) (x ∷ xs) h =
      let (p, e) = split_at?-some n xs (omega arith) in ((x ∷ p.0, p.1), ap (cons_front x) e)

abbrev nat_eq : ℕ → ℕ → Bool
nat_eq a b = elim (compare a b) [ Ordering.eq ↦ true | _ ↦ false ]

-- Equality of byte strings, as `memcmp` tells it by 0.
unfoldable pub bytes_eq : List ℕ → List ℕ → Bool
bytes_eq [] [] = true
bytes_eq [] (_ ∷ _) = false
bytes_eq (_ ∷ _) [] = false
bytes_eq (a ∷ as') (b ∷ bs) = nat_eq a b && bytes_eq as' bs

pub bytes_eq_sound : (as' bs : List ℕ) → bytes_eq as' bs ≡ true → as' ≡ bs
unfolding bytes_eq
bytes_eq_sound [] [] h = refl
bytes_eq_sound [] (b ∷ bs) h = absurd (ground arith)
bytes_eq_sound (a ∷ as') [] h = absurd (ground arith)
bytes_eq_sound (a ∷ as') (b ∷ bs) h = ground (arith, bytes_eq_sound as' bs)

pub bytes_eq_refl : (as' : List ℕ) → bytes_eq as' as' ≡ true
unfolding bytes_eq
bytes_eq_refl [] = refl
bytes_eq_refl (a ∷ as') = ground (arith, bytes_eq_refl as')

pub bytes_eq_iff : (as' bs : List ℕ) → (bytes_eq as' bs ≡ true) ↔ (as' ≡ bs)
bytes_eq_iff as' bs = (bytes_eq_sound as' bs, λ e. rw e (bytes_eq_refl bs))
