-- ===== src/Prelude/Groups.antt =====
-- Python's `groups.setdefault(key, []).append(value)`, and what a grouping of a list is.
pub mod Places
use mathlib.Core.List.Perm
use mathlib.Core.List.{Perm, perm_middle, append_assoc, append-nil}
use rintel_core.Prelude.{
  ◌≡◌, ◌≢◌, ◌⊎◌, refl, sym, inl, inr, Bool, true, false, List, [], ◌∷◌, ◌++◌, map, All, In, Eq,
  ◌==◌, if◌then◌else◌, Bool-cases, arith,
}

abbrev pub Groups : Type 0 → Type 0 → Type 0
Groups K V = List (K × List V)

abbrev pub group_keys : {K V : Type 0} → Groups K V → List K
group_keys [] = []
group_keys ((k, vs) ∷ gs) = k ∷ group_keys gs

-- the values of all groups
abbrev pub members : {K V : Type 0} → Groups K V → List V
members [] = []
members ((k, vs) ∷ gs) = vs ++ members gs

-- No key occurs twice.
abbrev pub Distinct : {K : Type 0} → List K → Type 0
Distinct [] = Unit {0}
Distinct (k ∷ ks) = (¬ In k ks) × Distinct ks

All-snoc :
    {V : Type 0} (P : V → Type 0) (vs : List V) (v : V) → All P vs → P v → All P (vs ++ v ∷ [])
All-snoc P [] v h p = (p, tt)
All-snoc P (x ∷ xs) v h p = (h.0, All-snoc P xs v h.1 p)

snoc-ne-nil : {V : Type 0} (vs : List V) (v : V) → (vs ++ v ∷ []) ≢ []
snoc-ne-nil [] v h = cc
snoc-ne-nil (x ∷ xs) v h = cc

module _ {K V : Type 0} ⦃e : Eq K⦄ where
  unfoldable pub add_to : K → V → Groups K V → Groups K V
  add_to k v [] = (k, v ∷ []) ∷ []
  add_to k v ((j, vs) ∷ gs) = if j == k then (j, vs ++ v ∷ []) ∷ gs else (j, vs) ∷ add_to k v gs

  unfoldable pub group_from : (V → K) → Groups K V → List V → Groups K V
  unfolding add_to
  group_from f gs [] = gs
  group_from f gs (v ∷ vs) = group_from f (add_to (f v) v gs) vs

  unfoldable pub group_by : (V → K) → List V → Groups K V
  unfolding group_from
  group_by f vs = group_from f [] vs

  add_to-perm : (k : K) (v : V) (gs : Groups K V) → Perm (members (add_to k v gs)) (v ∷ members gs)
  unfolding add_to
  add_to-perm k v [] = Perm.refl (v ∷ [])
  add_to-perm k v ((j, vs) ∷ gs) = elim (Bool-cases (j == k)) [
    | inl h ↦ rw h (rw append_assoc (perm_middle vs (members gs)))
    | inr h ↦
        rw h (Perm.trans (Perm.append_left vs (add_to-perm k v gs)) (perm_middle vs (members gs)))
  ]

  group_from-perm :
      (f : V → K) (gs : Groups K V) (vs : List V)
      → Perm (members (group_from f gs vs)) (members gs ++ vs)
  unfolding group_from
  group_from-perm f gs [] = rw append-nil (Perm.refl (members gs))
  group_from-perm f gs (v ∷ vs) = Perm.trans (group_from-perm f (add_to (f v) v gs) vs) (
      Perm.trans (Perm.append_right vs (add_to-perm (f v) v gs))
        (Perm.symm (perm_middle (members gs) vs)))

  -- A grouping holds the values given, each as often as it was given.
  pub group_by-perm : (f : V → K) (vs : List V) → Perm (members (group_by f vs)) vs
  unfolding group_by
  group_by-perm f vs = group_from-perm f [] vs

  In-group_keys-add_to :
      (i k : K) (v : V) (gs : Groups K V)
      → In i (group_keys (add_to k v gs))
      → (k ≡ i) ⊎ In i (group_keys gs)
  unfolding add_to
  In-group_keys-add_to i k v [] h = h
  In-group_keys-add_to i k v ((j, vs) ∷ gs) h = ground (arith, In-group_keys-add_to i k v gs)

  add_to-Distinct :
      (k : K) (v : V) (gs : Groups K V)
      → Distinct (group_keys gs)
      → Distinct (group_keys (add_to k v gs))
  unfolding add_to
  add_to-Distinct k v [] h = (λ m. m, tt)
  add_to-Distinct k v ((j, vs) ∷ gs) h = elim (Bool-cases (j == k)) [
    | inl q ↦ rw q h
    | inr q ↦ rw q (
      (λ m. ground (arith, In-group_keys-add_to j k v gs m, e.same_iff j k, h.0)),
      add_to-Distinct k v gs h.1,
    )
  ]

  group_from-Distinct :
      (f : V → K) (gs : Groups K V) (vs : List V)
      → Distinct (group_keys gs)
      → Distinct (group_keys (group_from f gs vs))
  unfolding group_from
  group_from-Distinct f gs [] h = h
  group_from-Distinct f gs (v ∷ vs) h =
      group_from-Distinct f (add_to (f v) v gs) vs (add_to-Distinct (f v) v gs h)

  -- A grouping has one group for each key.
  pub group_by-Distinct : (f : V → K) (vs : List V) → Distinct (group_keys (group_by f vs))
  unfolding group_by
  group_by-Distinct f vs = group_from-Distinct f [] vs tt

  -- A group is not empty, and its values have its key.
  abbrev pub IsGroup : (V → K) → K × List V → Type 0
  IsGroup f (k, vs) = All (λ v. f v ≡ k) vs × (vs ≢ [])

  add_to-IsGroup :
      (f : V → K) (v : V) (gs : Groups K V)
      → All (IsGroup f) gs
      → All (IsGroup f) (add_to (f v) v gs)
  unfolding add_to
  add_to-IsGroup f v [] h = (((refl, tt), λ q. cc), tt)
  add_to-IsGroup f v ((j, vs) ∷ gs) h = elim (Bool-cases (j == f v)) [
    | inl q ↦ rw q (
      (All-snoc (λ x. f x ≡ j) vs v h.0.0 (sym ((e.same_iff j (f v)).0 q)), snoc-ne-nil vs v),
      h.1,
    )
    | inr q ↦ rw q (h.0, add_to-IsGroup f v gs h.1)
  ]

  group_from-IsGroup :
      (f : V → K) (gs : Groups K V) (vs : List V)
      → All (IsGroup f) gs
      → All (IsGroup f) (group_from f gs vs)
  unfolding group_from
  group_from-IsGroup f gs [] h = h
  group_from-IsGroup f gs (v ∷ vs) h =
      group_from-IsGroup f (add_to (f v) v gs) vs (add_to-IsGroup f v gs h)

  pub group_by-IsGroup : (f : V → K) (vs : List V) → All (IsGroup f) (group_by f vs)
  unfolding group_by
  group_by-IsGroup f vs = group_from-IsGroup f [] vs tt
