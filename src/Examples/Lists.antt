-- ===== src/Examples/Lists.antt =====
-- The theorems on src/linked_list.c at concrete values.
use leocoin.Prelude.{◌≡◌, refl, none, some, [], ◌∷◌}
use leocoin.Result.{ok, given}
use leocoin.LinkedList.{LinkedList, put, linked_list_append}
use leocoin.LinkedList.{linked_list_find}
use leocoin.LinkedList.Search.{first_match, linked_list_find-first_match}
use leocoin.Prelude.{◌==◌}
use leocoin.LinkedList.Shape.{Represents}
use leocoin.LinkedList.Append.{linked_list_append-Represents}

-- Two nodes, at 32 and at 16.
abbrev two : LinkedList
two = record {
  head = some 32;
  nodes =
      put (put (λ _. none) 16 (some (record { data' = 7; next = none }))) 32
        (some (record { data' = 5; next = some 16 }));
}

two-Represents : Represents two (5 ∷ 7 ∷ [])
two-Represents = record {
  cells = (32, 5) ∷ (16, 7) ∷ [];
  holds = (refl, some 16, refl, (refl, none, refl, refl));
  apart = ((refl, tt), (tt, tt));
  data' = refl;
}

linked_list_append-Represents_example :
    (l' : LinkedList) × (linked_list_append 2 (some 64) (some two) (some 9) ≡ some (ok l'))
    × Represents l' (5 ∷ 7 ∷ 9 ∷ [])
linked_list_append-Represents_example =
    linked_list_append-Represents 64 two 9 (5 ∷ 7 ∷ []) two-Represents refl

linked_list_find-first_match_example :
    linked_list_find 3 (some λ x y. x == y) (some two) (some 7) given
    ≡ some (ok (first_match (λ y. 7 == y) two-Represents.cells))
linked_list_find-first_match_example =
    linked_list_find-first_match (λ x y. x == y) two 7 (5 ∷ 7 ∷ []) two-Represents
