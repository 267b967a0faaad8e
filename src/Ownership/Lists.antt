-- ===== src/Ownership/Lists.antt =====
-- `linked_list_destroy` frees the list, its nodes, and what its data own.
use leocoin.Prelude.{
  ℕ, zero, suc, ◌<◌, ◌≡◌, refl, sym, ap, ◌∙◌, Bool, true, false, ◌||◌, Option, none, some, List, [],
  ◌∷◌, ◌++◌, ◌==◌, ==-flip, ==-refl, Bool-cases, inl, inr, if◌then◌else◌, arith, length,
}
use leocoin.Result.{ok, Pointer}
use leocoin.Ownership.{
  Object, list_object, node_object, Objects, set_object, Rounds, ended, linked_list_remove_first,
  destroy_loop, linked_list_destroy,
}
use leocoin.Ownership.Clears.{
  member, Disjoint, IsCleared, member-append, not_member, Disjoint-not_member, member-head,
  member-rest, member-front, member-back, if_or, free_object-allocated,
}

-- What the data of a list are: their addresses, what they own, and how they are held in memory.
pub record Owned (X : Type 0) : Type 1 where
  pub address : X → ℕ
  pub owns : X → List ℕ
  pub At : Objects → X → Type 0
  pub frame :
      (x : X) (h h' : Objects)
      → ((a : ℕ) → member a (owns x) ≡ true → h' a ≡ h a)
      → At h x
      → At h' x

-- A free function that frees what the data own.
abbrev pub Frees : {X : Type 0} → Owned X → (Objects → ℕ → Rounds Objects) → Type 0
Frees {X} o free_function =
    (h : Objects) (x : X)
    → o.At h x
    → (h' : Objects) × (free_function h (o.address x) ≡ ended (ok h')) × IsCleared (o.owns x) h h'

module _ {X : Type 0} (o : Owned X) where
  -- The nodes and what is in them.
  abbrev pub owns_all : List (ℕ × X) → List ℕ
  owns_all [] = []
  owns_all (c ∷ cs) = c.0 ∷ (o.owns c.1 ++ owns_all cs)

  abbrev pub HoldsAll : Objects → Pointer ℕ → List (ℕ × X) → Type 0
  HoldsAll h p [] = p ≡ none
  HoldsAll h p (c ∷ cs) =
      (p ≡ some c.0)
      × (next : Pointer ℕ) × (h c.0 ≡ some (node_object (o.address c.1) next))
      × o.At h c.1
      × HoldsAll h next cs

  -- Nothing is owned twice.
  abbrev pub Separate : List (ℕ × X) → Type 0
  Separate [] = Unit
  Separate (c ∷ cs) =
      (member c.0 (o.owns c.1) ≡ false) × Disjoint (c.0 ∷ o.owns c.1) (owns_all cs) × Separate cs

  -- A list at an address, with these cells.
  pub record IsList (h : Objects) (l : ℕ) (cells : List (ℕ × X)) : Type 0 where
    pub head : Pointer ℕ
    pub at_list : h l ≡ some (list_object head)
    pub holds : HoldsAll h head cells
    pub apart : member l (owns_all cells) ≡ false
    pub separate : Separate cells

  member_left : (a : ℕ) (bs cs : List ℕ) → member a bs ≡ true → member a (bs ++ cs) ≡ true
  member_left a bs cs m = rw (member-append a bs cs, m) refl

  member_right : (a : ℕ) (bs cs : List ℕ) → member a cs ≡ true → member a (bs ++ cs) ≡ true
  member_right a bs cs m = elim (Bool-cases (member a bs)) [
    | inl there ↦ rw (member-append a bs cs, there) refl
    | inr gone ↦ rw (member-append a bs cs, gone, m) refl
  ]

  pub member_cons : (a b : ℕ) (bs : List ℕ) → member a bs ≡ true → member a (b ∷ bs) ≡ true
  unfolding member
  member_cons a b bs m = elim (Bool-cases (a == b)) [ inl e ↦ rw e refl | inr e ↦ rw (e, m) refl ]

  -- Cells whose objects are not changed.
  HoldsAll-frame :
      (h h' : Objects) (p : Pointer ℕ) (cs : List (ℕ × X))
      → ((a : ℕ) → member a (owns_all cs) ≡ true → h' a ≡ h a)
      → HoldsAll h p cs
      → HoldsAll h' p cs
  unfolding member
  HoldsAll-frame h h' p [] same e = e
  HoldsAll-frame h h' p ((n, x) ∷ cs) same (e, next, node, at', rest) = (
    e,
    next,
    same n (rw (==-refl n) refl) ∙ node,
    o.frame x h h' (λ a m. same a (member_cons a n _ (member_left a (o.owns x) (owns_all cs) m)))
        at',
    HoldsAll-frame h h' next cs
        (λ a m. same a (member_cons a n _ (member_right a (o.owns x) (owns_all cs) m))) rest,
  )

  pub IsList-frame :
      (h h' : Objects) (l : ℕ) (cs : List (ℕ × X))
      → ((a : ℕ) → member a (l ∷ owns_all cs) ≡ true → h' a ≡ h a)
      → IsList h l cs
      → IsList h' l cs
  unfolding member
  IsList-frame h h' l cs same v = record {
    head = v.head;
    at_list = same l (rw (==-refl l) refl) ∙ v.at_list;
    holds = HoldsAll-frame h h' v.head cs (λ a m. same a (member_cons a l _ m)) v.holds;
    apart = v.apart;
    separate = v.separate;
  }

  module _ (f : Objects → ℕ → Rounds Objects) (frees : Frees o f) where
    -- The first cell is freed, and the list is that of the others.
    record Removed (h : Objects) (l : ℕ) (c : ℕ × X) (cs : List (ℕ × X)) (h' : Objects)
        : Type 0 where
      list : IsList h' l cs
      others :
          (a : ℕ)
          → (a == l) ≡ false
          → h' a ≡ (if a == c.0 then none else (if member a (o.owns c.1) then none else h a))

    remove_first_lem :
        (h : Objects) (l n : ℕ) (x : X) (cs : List (ℕ × X))
        → IsList h l ((n, x) ∷ cs)
        → (h' : Objects) × (linked_list_remove_first f h l ≡ ended (ok h'))
          × Removed h l (n, x) cs h'
    unfolding linked_list_remove_first
    remove_first_lem h l n x cs v =
        let (e, next, node, at', rest) = v.holds in
        let (out_x, disjoint, separate) = v.separate in
        let l≠n = member-head l n (o.owns x ++ owns_all cs) v.apart in
        let l_out = member-rest l n (o.owns x ++ owns_all cs) v.apart in
        let l_out_x = member-front l (o.owns x) (owns_all cs) l_out in
        let l_out_cs = member-back l (o.owns x) (owns_all cs) l_out in
        let n≠l = ==-flip l n l≠n in
        let h1 = set_object h l (some (list_object next)) in
        let at1 : o.At h1 x =
          o.frame x h h1 (λ a m. rw (not_member a l (o.owns x) l_out_x m) refl) at' in
        let (h2, freed, clear) = frees h1 x at1 in
        let node2 : h2 n ≡ some (node_object (o.address x) next) =
          clear.at_address n ∙ rw (out_x, n≠l) node in
        let h3 = set_object h2 n none in
        let others : (a : ℕ)
            → (a == l) ≡ false
            → h3 a ≡ (if a == n then none else (if member a (o.owns x) then none else h a)) =
          λ a a≠l.
            ap (λ (v : Option Object). if a == n then none else v)
              (clear.at_address a ∙ rw a≠l refl) in
        (
          h3,
          rw (v.at_list, e, node, freed, free_object-allocated h2 n _ node2) refl,
          record {
            list = record {
              head = next;
              at_list = rw l≠n (clear.at_address l ∙ rw (l_out_x, ==-refl l) refl);
              holds =
                  HoldsAll-frame h h3 next cs
                    (λ a m.
                      others a (not_member a l (owns_all cs) l_out_cs m)
                      ∙ rw
                          (
                            not_member a n (owns_all cs) disjoint.0 m,
                            Disjoint-not_member a (o.owns x) (owns_all cs) disjoint.1 m,
                          )
                          refl)
                    rest;
              apart = l_out_cs;
              separate = separate;
            };
            others = others;
          },
        )

    -- What the loop leaves: an empty list, and of the other objects those that the cells do not own.
    record Emptied (h : Objects) (l : ℕ) (cs : List (ℕ × X)) (h' : Objects) : Type 0 where
      empty : h' l ≡ some (list_object none)
      others : (a : ℕ) → (a == l) ≡ false → h' a ≡ (if member a (owns_all cs) then none else h a)

    destroy_loop_lem :
        (rounds : ℕ) (h : Objects) (l : ℕ) (cs : List (ℕ × X))
        → IsList h l cs
        → length cs < rounds
        → (h' : Objects) × (destroy_loop f rounds h l ≡ ended (ok h')) × Emptied h l cs h'
    unfolding destroy_loop member
    destroy_loop_lem zero h l cs v enough = absurd (omega (arith, enough))
    destroy_loop_lem (suc rounds) h l [] v enough =
        let at_list : h l ≡ some (list_object none) = rw v.holds at v.at_list in
        (h, rw (destroy_loop, at_list) refl, record { empty = at_list; others = λ a _. refl })
    destroy_loop_lem (suc rounds) h l ((n, x) ∷ cs) v enough =
        let (h1, removed, r) = remove_first_lem h l n x cs v in
        let (h2, loop, e) = destroy_loop_lem rounds h1 l cs r.list (omega (arith, enough)) in
        (
          h2,
          rw (destroy_loop, v.at_list, v.holds.0, removed) loop,
          record {
            empty = e.empty;
            others = λ a a≠l.
                e.others a a≠l
                ∙ ap (λ (v : Option Object). if member a (owns_all cs) then none else v)
                    (r.others a a≠l)
                ∙ if_or (a == n) (member a (o.owns x)) (member a (owns_all cs)) (h a)
                ∙ ap (λ (b : Bool). if (a == n) || b then none else h a)
                    (sym (member-append a (o.owns x) (owns_all cs)));
          },
        )

    pub linked_list_destroy-IsCleared :
        (rounds : ℕ) (h : Objects) (l : ℕ) (cs : List (ℕ × X))
        → IsList h l cs
        → length cs < rounds
        → (h' : Objects) × (linked_list_destroy f rounds h l ≡ ended (ok h'))
          × IsCleared (l ∷ owns_all cs) h h'
    unfolding linked_list_destroy member
    linked_list_destroy-IsCleared rounds h l cs v enough =
        let (h1, loop, e) = destroy_loop_lem rounds h l cs v enough in
        (
          set_object h1 l none,
          rw (loop, free_object-allocated h1 l _ e.empty) refl,
          record {
            at_address = λ a. elim (Bool-cases (a == l)) [
              | inl same ↦ rw same refl
              | inr other ↦ rw other (e.others a other)
            ];
          },
        )
