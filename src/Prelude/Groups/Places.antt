-- ===== src/Prelude/Groups/Places.antt =====
-- Where the values of a grouping come from, and groupings up to the order of the groups.
use mathlib.Core.Logic.{∥∥₁_elim}
use mathlib.Core.List.Perm
use mathlib.Core.List.{Perm, Permᴰ, Perm-prop, perm_append_comm, append_assoc}
use rintel_core.Prelude.{
  ◌≡◌, ◌≢◌, ◌⊎◌, refl, sym, ap, ◌∙◌, inl, inr, List, [], ◌∷◌, ◌++◌, map, All, In, Eq, ◌==◌,
  Bool-cases, length, arith, subst,
}
use rintel_core.Prelude.Groups.{
  Groups, members, group_keys, IsGroup, add_to, group_from, group_by, group_by-IsGroup,
  group_by-Distinct, Distinct,
}

module _ {A : Type 0} where
  pub In-append_left : (a : A) (xs ys : List A) → In a xs → In a (xs ++ ys)
  In-append_left a [] ys h = absurd h
  In-append_left a (x ∷ xs) ys (inl e) = inl e
  In-append_left a (x ∷ xs) ys (inr h) = inr (In-append_left a xs ys h)

  pub In-append_right : (a : A) (xs ys : List A) → In a ys → In a (xs ++ ys)
  In-append_right a [] ys h = h
  In-append_right a (x ∷ xs) ys h = inr (In-append_right a xs ys h)

  pub In-append : (a : A) (xs ys : List A) → In a (xs ++ ys) → In a xs ⊎ In a ys
  In-append a [] ys h = inr h
  In-append a (x ∷ xs) ys (inl e) = inl (inl e)
  In-append a (x ∷ xs) ys (inr h) = elim (In-append a xs ys h) [
    | inl p ↦ inl (inr p)
    | inr q ↦ inr q
  ]

  pub All-In : (P : A → Type 0) (xs : List A) {a : A} → All P xs → In a xs → P a
  All-In P [] h m = absurd m
  All-In P (x ∷ xs) h (inl e) = subst P e h.0
  All-In P (x ∷ xs) h (inr m) = All-In P xs h.1 m

  pub In-All : (P : A → Type 0) (xs : List A) → ((a : A) → In a xs → P a) → All P xs
  In-All P [] h = tt
  In-All P (x ∷ xs) h = (h x (inl refl), In-All P xs (λ a m. h a (inr m)))

  pub In-map : {B : Type 0} (f : A → B) (a : A) (xs : List A) → In a xs → In (f a) (map f xs)
  In-map f a [] h = absurd h
  In-map f a (x ∷ xs) (inl e) = inl (ap f e)
  In-map f a (x ∷ xs) (inr h) = inr (In-map f a xs h)

module _ {K V : Type 0} where
  members-Permᴰ : {gs hs : Groups K V} → Permᴰ gs hs → Perm (members gs) (members hs)
  members-Permᴰ Permᴰ.nil = Perm.refl []
  members-Permᴰ (Permᴰ.cons {a} {b} e p) = rw e (Perm.append_left b.1 (members-Permᴰ p))
  members-Permᴰ (Permᴰ.swap {a} {b} {a'} {b'} {l} e f) =
      rw (e, f)
        (rw (← append_assoc, ← append_assoc)
          (Perm.append_right (members l) (perm_append_comm b'.1 a'.1)))
  members-Permᴰ (Permᴰ.trans p q) = Perm.trans (members-Permᴰ p) (members-Permᴰ q)

  -- The values do not depend on the order of the groups.
  pub members-perm : {gs hs : Groups K V} → Perm gs hs → Perm (members gs) (members hs)
  members-perm p = ∥∥₁_elim p Perm-prop members-Permᴰ

module _ {K V : Type 0} ⦃e : Eq K⦄ where
  In-add_to :
      (v w : V) (k : K) (gs : Groups K V)
      → In v (members (add_to k w gs))
      → (w ≡ v) ⊎ In v (members gs)
  unfolding add_to
  In-add_to v w k [] (inl q) = inl q
  In-add_to v w k [] (inr h) = absurd h
  In-add_to v w k ((j, vs) ∷ gs) h = elim (Bool-cases (j == k)) [
    | inl q ↦ elim (In-append v (vs ++ w ∷ []) (members gs) (rw q at h)) [
      | inl p ↦ elim (In-append v vs (w ∷ []) p) [
        | inl a ↦ inr (In-append_left v vs (members gs) a)
        | inr (inl a) ↦ inl a
        | inr (inr a) ↦ absurd a
      ]
      | inr m ↦ inr (In-append_right v vs (members gs) m)
    ]
    | inr q ↦ elim (In-append v vs (members (add_to k w gs)) (rw q at h)) [
      | inl a ↦ inr (In-append_left v vs (members gs) a)
      | inr m ↦ elim (In-add_to v w k gs m) [
        | inl a ↦ inl a
        | inr a ↦ inr (In-append_right v vs (members gs) a)
      ]
    ]
  ]

  add_to-In :
      (v w : V) (k : K) (gs : Groups K V)
      → (w ≡ v) ⊎ In v (members gs)
      → In v (members (add_to k w gs))
  unfolding add_to
  add_to-In v w k [] (inl q) = inl q
  add_to-In v w k [] (inr h) = absurd h
  add_to-In v w k ((j, vs) ∷ gs) h = elim (Bool-cases (j == k)) [
    | inl q ↦ rw q (elim h [
      | inl a ↦ In-append_left v (vs ++ w ∷ []) (members gs) (In-append_right v vs (w ∷ []) (inl a))
      | inr m ↦ elim (In-append v vs (members gs) m) [
        | inl a ↦ In-append_left v (vs ++ w ∷ []) (members gs) (In-append_left v vs (w ∷ []) a)
        | inr a ↦ In-append_right v (vs ++ w ∷ []) (members gs) a
      ]
    ])
    | inr q ↦ rw q (elim h [
      | inl a ↦ In-append_right v vs (members (add_to k w gs)) (add_to-In v w k gs (inl a))
      | inr m ↦ elim (In-append v vs (members gs) m) [
        | inl a ↦ In-append_left v vs (members (add_to k w gs)) a
        | inr a ↦ In-append_right v vs (members (add_to k w gs)) (add_to-In v w k gs (inr a))
      ]
    ])
  ]

  In-group_from :
      (f : V → K) (v : V) (gs : Groups K V) (vs : List V)
      → In v (members (group_from f gs vs))
      → In v (members gs) ⊎ In v vs
  unfolding group_from
  In-group_from f v gs [] h = inl h
  In-group_from f v gs (w ∷ vs) h = elim (In-group_from f v (add_to (f w) w gs) vs h) [
    | inl m ↦ elim (In-add_to v w (f w) gs m) [ inl q ↦ inr (inl q) | inr q ↦ inl q ]
    | inr m ↦ inr (inr m)
  ]

  -- The values of the groups are among those given.
  pub In-group_by : (f : V → K) (v : V) (vs : List V) → In v (members (group_by f vs)) → In v vs
  unfolding group_by
  In-group_by f v vs h = elim (In-group_from f v [] vs h) [ inl m ↦ absurd m | inr m ↦ m ]

  group_from-In :
      (f : V → K) (v : V) (gs : Groups K V) (vs : List V)
      → In v (members gs) ⊎ In v vs
      → In v (members (group_from f gs vs))
  unfolding group_from
  group_from-In f v gs [] (inl m) = m
  group_from-In f v gs [] (inr m) = absurd m
  group_from-In f v gs (w ∷ vs) (inl m) =
      group_from-In f v (add_to (f w) w gs) vs (inl (add_to-In v w (f w) gs (inr m)))
  group_from-In f v gs (w ∷ vs) (inr (inl q)) =
      group_from-In f v (add_to (f w) w gs) vs (inl (add_to-In v w (f w) gs (inl q)))
  group_from-In f v gs (w ∷ vs) (inr (inr m)) = group_from-In f v (add_to (f w) w gs) vs (inr m)

  -- Every value given is in a group.
  pub group_by-In : (f : V → K) (v : V) (vs : List V) → In v vs → In v (members (group_by f vs))
  unfolding group_by
  group_by-In f v vs m = group_from-In f v [] vs (inr m)

  one_group :
      (f : V → K) (gs : Groups K V) (v w : V)
      → All (IsGroup f) gs
      → length gs ≡ 1
      → In v (members gs)
      → In w (members gs)
      → f v ≡ f w
  one_group f [] v w h n mv mw = absurd mv
  one_group f ((k, vs) ∷ []) v w h n mv mw = in_group v mv ∙ sym (in_group w mw)
    where
      in_group : (x : V) → In x (vs ++ []) → f x ≡ k
      in_group x m = elim (In-append x vs [] m) [
        | inl a ↦ All-In (λ y. f y ≡ k) vs h.0.0 a
        | inr a ↦ absurd a
      ]
  one_group f (a ∷ b ∷ gs) v w h n mv mw = absurd (omega arith)

  -- Where there is one group, all values have one key.
  pub group_by-one :
      (f : V → K) (vs : List V) (v w : V)
      → length (group_by f vs) ≡ 1
      → In v vs
      → In w vs
      → f v ≡ f w
  group_by-one f vs v w n mv mw =
      one_group f (group_by f vs) v w (group_by-IsGroup f vs) n (group_by-In f v vs mv)
        (group_by-In f w vs mw)

  two_groups :
      (f : V → K) (gs : Groups K V)
      → All (IsGroup f) gs
      → Distinct (group_keys gs)
      → length gs ≢ 0
      → length gs ≢ 1
      → (v : V) × (w : V) × In v (members gs) × In w (members gs) × (f v ≢ f w)
  two_groups f [] h d n m = absurd (n refl)
  two_groups f (a ∷ []) h d n m = absurd (m refl)
  two_groups f ((j, []) ∷ b ∷ gs) h d n m = absurd (h.0.1 refl)
  two_groups f (a ∷ (k, []) ∷ gs) h d n m = absurd (h.1.0.1 refl)
  two_groups f ((j, v ∷ vs) ∷ (k, w ∷ ws) ∷ gs) h d n m = (
    v,
    w,
    inl refl,
    In-append_right w (v ∷ vs) ((w ∷ ws) ++ members gs) (inl refl),
    λ q. d.0 (inl (sym h.1.0.0.0 ∙ sym q ∙ h.0.0.0)),
  )

  group_by-ne-nil : (f : V → K) (v : V) (vs : List V) → length (group_by f (v ∷ vs)) ≢ 0
  group_by-ne-nil f v vs = not_empty (group_by f (v ∷ vs)) (group_by-In f v (v ∷ vs) (inl refl))
    where
      not_empty : (gs : Groups K V) → In v (members gs) → length gs ≢ 0
      not_empty [] m q = m
      not_empty (g ∷ gs) m q = absurd (omega arith)

  -- Where there is not one group, two values have different keys.
  pub group_by-two :
      (f : V → K) (x : V) (xs : List V)
      → length (group_by f (x ∷ xs)) ≢ 1
      → (v : V) × (w : V) × In v (x ∷ xs) × In w (x ∷ xs) × (f v ≢ f w)
  group_by-two f x xs n =
      let all = x ∷ xs in
      let (v, w, mv, mw, q) =
        two_groups f (group_by f all) (group_by-IsGroup f all) (group_by-Distinct f all)
          (group_by-ne-nil f x xs) n in
      (v, w, In-group_by f v all mv, In-group_by f w all mw, q)

  -- Each group holds values that were given.
  abbrev pub IsWithin : List V → K × List V → Type 0
  IsWithin all (k, vs) = All (λ v. In v all) vs

  groups-IsWithin :
      (all : List V) (gs : Groups K V)
      → ((v : V) → In v (members gs) → In v all)
      → All (IsWithin all) gs
  groups-IsWithin all [] h = tt
  groups-IsWithin all ((k, vs) ∷ gs) h = (
    In-All (λ v. In v all) vs (λ v m. h v (In-append_left v vs (members gs) m)),
    groups-IsWithin all gs (λ v m. h v (In-append_right v vs (members gs) m)),
  )

  pub group_by-IsWithin : (f : V → K) (vs : List V) → All (IsWithin vs) (group_by f vs)
  group_by-IsWithin f vs = groups-IsWithin vs (group_by f vs) (λ v m. In-group_by f v vs m)
