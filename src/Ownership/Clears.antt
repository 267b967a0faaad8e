-- ===== src/Ownership/Clears.antt =====
-- Which objects a function frees: these and no others.
use leocoin.Prelude.{
  ℕ, ◌≡◌, refl, ◌∙◌, Bool, true, false, ◌||◌, Option, none, some, List, [], ◌∷◌, ◌++◌, ◌==◌, ==_iff,
  Bool-cases, inl, inr, if◌then◌else◌,
}
use leocoin.Result.{ok}
use leocoin.Ownership.{Object, Objects, set_object, free_object}

unfoldable pub member : ℕ → List ℕ → Bool
member a [] = false
member a (b ∷ bs) = (a == b) || member a bs

-- No address is in both lists.
abbrev pub Disjoint : List ℕ → List ℕ → Type 0
Disjoint [] bs = Unit
Disjoint (a ∷ as') bs = (member a bs ≡ false) × Disjoint as' bs

-- The objects at these addresses are freed, and the others are as they were.
pub record IsCleared (as' : List ℕ) (h h' : Objects) : Type 0 where
  pub at_address : (a : ℕ) → h' a ≡ (if member a as' then none else h a)

pub member-append : (a : ℕ) (bs cs : List ℕ) → member a (bs ++ cs) ≡ (member a bs || member a cs)
unfolding member
member-append a [] cs = refl
member-append a (b ∷ bs) cs = elim (Bool-cases (a == b)) [
  | inl same ↦ rw same refl
  | inr other ↦ rw other (member-append a bs cs)
]

pub Disjoint-member :
    (a : ℕ) (bs cs : List ℕ) → member a bs ≡ true → Disjoint bs cs → member a cs ≡ false
unfolding member
Disjoint-member a [] cs m d = absurd (cc)
Disjoint-member a (b ∷ bs) cs m (here, d) = elim (Bool-cases (a == b)) [
  | inl same ↦ let e : a ≡ b = (==_iff a b).0 same in rw e here
  | inr other ↦ Disjoint-member a bs cs (rw other at m) d
]

-- What three steps leave at an address.
pub if_or :
    (b c d : Bool) (o : Option Object)
    → ◌≡◌ {A = Option Object}
        (if d then none else (if b then none else (if c then none else o)))
        (if b || (c || d) then none else o)
if_or true c true o = refl
if_or true c false o = refl
if_or false true true o = refl
if_or false true false o = refl
if_or false false true o = refl
if_or false false false o = refl

pub free_object-allocated :
    (h : Objects) (a : ℕ) (o : Object) → h a ≡ some o → free_object h a ≡ ok (set_object h a none)
unfolding free_object
free_object-allocated h a o e = rw (free_object, e) refl

-- An address outside of a list is none in it.
pub not_member :
    (a l : ℕ) (bs : List ℕ) → member l bs ≡ false → member a bs ≡ true → (a == l) ≡ false
not_member a l bs out there = elim (Bool-cases (a == l)) [
  | inl same ↦ let e : a ≡ l = (==_iff a l).0 same in absurd (cc (out, there, e))
  | inr other ↦ other
]

pub Disjoint-not_member :
    (a : ℕ) (bs cs : List ℕ) → Disjoint bs cs → member a cs ≡ true → member a bs ≡ false
Disjoint-not_member a bs cs d there = elim (Bool-cases (member a bs)) [
  | inl both ↦ let out = Disjoint-member a bs cs both d in absurd (cc (out, there))
  | inr other ↦ other
]

pub member-head : (a b : ℕ) (bs : List ℕ) → member a (b ∷ bs) ≡ false → (a == b) ≡ false
unfolding member
member-head a b bs out = elim (Bool-cases (a == b)) [
  | inl same ↦ absurd (cc (rw same at out))
  | inr other ↦ other
]

pub member-rest : (a b : ℕ) (bs : List ℕ) → member a (b ∷ bs) ≡ false → member a bs ≡ false
unfolding member
member-rest a b bs out = rw (member-head a b bs out) at out

pub member-front : (a : ℕ) (bs cs : List ℕ) → member a (bs ++ cs) ≡ false → member a bs ≡ false
member-front a bs cs out = elim (Bool-cases (member a bs)) [
  | inl there ↦ let whole = rw there at (rw (member-append a bs cs) at out) in absurd (cc whole)
  | inr other ↦ other
]

pub member-back : (a : ℕ) (bs cs : List ℕ) → member a (bs ++ cs) ≡ false → member a cs ≡ false
member-back a bs cs out = rw (member-front a bs cs out) at (rw (member-append a bs cs) at out)

-- An object is freed behind those that it owns.
pub IsCleared-owner :
    (a : ℕ) (o : Object) (bs : List ℕ) (h h' : Objects)
    → h a ≡ some o
    → member a bs ≡ false
    → IsCleared bs h h'
    → (free_object h' a ≡ ok (set_object h' a none)) × IsCleared (a ∷ bs) h (set_object h' a none)
unfolding member
IsCleared-owner a o bs h h' e out c = (
  free_object-allocated h' a o (c.at_address a ∙ rw out e),
  record {
    at_address = λ b. elim (Bool-cases (b == a)) [
      | inl same ↦ rw same refl
      | inr other ↦ rw other (c.at_address b)
    ];
  },
)
