-- ===== src/SourceSpan/Mask/Loop.antt =====
-- The loop over `i` that `mask_c` and `mask_fortran` of rintel/source_span/mask.py share: a recursion
-- on what is left of the text, in which a pass of the body writes one character or two.
use rintel_core.Prelude.{
  ℕ, ◌≡◌, ◌≢◌, ◌⊎◌, inl, inr, refl, ap, ◌∙◌, Bool, false, Option, none, some, List, [], ◌∷◌, arith,
  ◌==◌, nat_eq,
}
use rintel_core.SourceSpan.Mask.Kept.{Kept, SameOffsets}

-- What a pass of the loop does: the characters written, and the mode that it leaves.
pub data Pass (M : Type 0) : Type 0 where
  one : ℕ → M → Pass M
  two : ℕ → ℕ → M → Pass M

-- `nxt == "x"`, where `nxt` is "" at the end of the text
abbrev pub next_is : ℕ → Option ℕ → Bool
next_is x none = false
next_is x (some d) = d == x

pub Pass-cases :
    {M : Type 0} (r : Pass M)
    → ((o : ℕ) × (m : M) × (r ≡ one o m)) ⊎ ((o : ℕ) × (p : ℕ) × (m : M) × (r ≡ two o p m))
Pass-cases (one o m) = inl (o, m, refl)
Pass-cases (two o p m) = inr (o, p, m, refl)

-- A pass is given the mode, the character and its successor; at the end there is no successor,
-- and one character is written.
unfoldable pub run : {M : Type 0} → (M → ℕ → Option ℕ → Pass M) → M → List ℕ → List ℕ
run pass m [] = []
run pass m (c ∷ []) = elim (pass m c none) [ one o _ ↦ o ∷ [] | two o _ _ ↦ o ∷ [] ]
run pass m (c ∷ d ∷ rest) = elim (pass m c (some d)) [
  | one o m' ↦ o ∷ run pass m' (d ∷ rest)
  | two o p m' ↦ o ∷ p ∷ run pass m' rest
]

-- The passes of a masker blank or keep, and take two characters only where there are two.
pub record KeepsOffsets {M : Type 0} (pass : M → ℕ → Option ℕ → Pass M) : Type 0 where
  pub one_Kept :
      (m : M) (c : ℕ) (nxt : Option ℕ) (o : ℕ) (m' : M) → pass m c nxt ≡ one o m' → Kept c o
  pub two_Kept :
      (m : M) (c d o p : ℕ) (m' : M) → pass m c (some d) ≡ two o p m' → Kept c o × Kept d p
  pub end_ne_two : (m : M) (c o p : ℕ) (m' : M) → pass m c none ≢ two o p m'

-- What a pass has written is left alone by the pass of a second run, in the mode `plain m`.
pub record Settles {M : Type 0} (pass : M → ℕ → Option ℕ → Pass M) (plain : M → M) : Type 0 where
  pub settled :
      (m : M) (c d o x : ℕ) (m' : M)
      → pass m c (some d) ≡ one o m'
      → Kept d x
      → pass (plain m) o (some x) ≡ one o (plain m')
  pub settled_end :
      (m : M) (c o : ℕ) (m' : M)
      → pass m c none ≡ one o m'
      → pass (plain m) o none ≡ one o (plain m')
  pub settled_first :
      (m : M) (c d o p : ℕ) (m' : M)
      → pass m c (some d) ≡ two o p m'
      → pass (plain m) o (some p) ≡ one o (plain m')
  pub settled_second :
      (m : M) (c d o p : ℕ) (m' : M) (nxt : Option ℕ)
      → pass m c (some d) ≡ two o p m'
      → pass (plain m') p nxt ≡ one p (plain m')

module _ {M : Type 0} (pass : M → ℕ → Option ℕ → Pass M) where
  run-end : (m : M) (c o : ℕ) (m' : M) → pass m c none ≡ one o m' → run pass m (c ∷ []) ≡ o ∷ []
  unfolding run
  run-end m c o m' e = ground arith

  pub run-one :
      (m : M) (c d : ℕ) (rest : List ℕ) (o : ℕ) (m' : M)
      → pass m c (some d) ≡ one o m'
      → run pass m (c ∷ d ∷ rest) ≡ o ∷ run pass m' (d ∷ rest)
  unfolding run
  run-one m c d rest o m' e = ground arith

  pub run-two :
      (m : M) (c d : ℕ) (rest : List ℕ) (o p : ℕ) (m' : M)
      → pass m c (some d) ≡ two o p m'
      → run pass m (c ∷ d ∷ rest) ≡ o ∷ p ∷ run pass m' rest
  unfolding run
  run-two m c d rest o p m' e = ground arith

  -- A pass that does not look ahead.
  pub run-cons_one :
      (m : M) (c : ℕ) (rest : List ℕ) (o : ℕ) (m' : M)
      → ((nxt : Option ℕ) → pass m c nxt ≡ one o m')
      → run pass m (c ∷ rest) ≡ o ∷ run pass m' rest
  run-cons_one m c [] o m' s = unfold run in run-end m c o m' (s none)
  run-cons_one m c (d ∷ rest) o m' s = run-one m c d rest o m' (s (some d))

module _ {M : Type 0} (pass : M → ℕ → Option ℕ → Pass M) (keeps : KeepsOffsets pass) where
  open keeps use {one_Kept, two_Kept, end_ne_two}

  -- A run keeps the length, the newlines, and every character that it does not blank.
  pub run-SameOffsets : (m : M) (text : List ℕ) → SameOffsets text (run pass m text)
  run-SameOffsets m [] = unfold run in tt
  run-SameOffsets m (c ∷ []) = elim (Pass-cases (pass m c none)) [
    | inl (o, m', e) ↦ rw (SameOffsets, run-end pass m c o m' e) (one_Kept m c none o m' e, tt)
    | inr (o, p, m', e) ↦ absurd (end_ne_two m c o p m' e)
  ]
  run-SameOffsets m (c ∷ d ∷ rest) = elim (Pass-cases (pass m c (some d))) [
    | inl (o, m', e) ↦
        rw (SameOffsets, run-one pass m c d rest o m' e)
          (one_Kept m c (some d) o m' e, run-SameOffsets m' (d ∷ rest))
    | inr (o, p, m', e) ↦
        let both = two_Kept m c d o p m' e in
        rw (SameOffsets, run-two pass m c d rest o p m' e)
          (both.0, (both.1, run-SameOffsets m' rest))
  ]

  run-cons :
      (m : M) (c : ℕ) (rest : List ℕ)
      → (o : ℕ) × (os : List ℕ) × (run pass m (c ∷ rest) ≡ o ∷ os) × Kept c o
  run-cons m c [] = elim (Pass-cases (pass m c none)) [
    | inl (o, m', e) ↦ (o, [], run-end pass m c o m' e, one_Kept m c none o m' e)
    | inr (o, p, m', e) ↦ absurd (end_ne_two m c o p m' e)
  ]
  run-cons m c (d ∷ rest) = elim (Pass-cases (pass m c (some d))) [
    | inl (o, m', e) ↦
        (o, run pass m' (d ∷ rest), run-one pass m c d rest o m' e, one_Kept m c (some d) o m' e)
    | inr (o, p, m', e) ↦
        (o, p ∷ run pass m' rest, run-two pass m c d rest o p m' e, (two_Kept m c d o p m' e).0)
  ]

module _ {M : Type 0} (pass : M → ℕ → Option ℕ → Pass M) (keeps : KeepsOffsets pass) {plain : M → M}
    (settles : Settles pass plain) where
  open settles use {settled, settled_end, settled_first, settled_second}

  -- A second run, in the plain mode, changes nothing.
  pub run_idem : (m : M) (text : List ℕ) → run pass (plain m) (run pass m text) ≡ run pass m text
  run_idem m [] = unfold run in refl
  run_idem m (c ∷ []) = elim (Pass-cases (pass m c none)) [
    | inl (o, m', e) ↦
        rw (run-end pass m c o m' e)
          (run-end pass (plain m) o o (plain m') (settled_end m c o m' e))
    | inr (o, p, m', e) ↦ absurd (keeps.end_ne_two m c o p m' e)
  ]
  run_idem m (c ∷ d ∷ rest) = elim (Pass-cases (pass m c (some d))) [
    | inl (o, m', e) ↦
        let (x, os, t, k) = run-cons pass keeps m' d rest in
        rw (run-one pass m c d rest o m' e) (
          rw t (
            run-one pass (plain m) o x os o (plain m') (settled m c d o x m' e k)
            ∙ ap (λ l. o ∷ l) (rw t at (run_idem m' (d ∷ rest)))))
    | inr (o, p, m', e) ↦ rw (run-two pass m c d rest o p m' e) (
        run-one pass (plain m) o p (run pass m' rest) o (plain m') (settled_first m c d o p m' e)
        ∙ ap (λ l. o ∷ l)
            (run-cons_one pass (plain m') p (run pass m' rest) p (plain m')
                (λ nxt. settled_second m c d o p m' nxt e)
              ∙ ap (λ l. p ∷ l) (run_idem m' rest)))
  ]
