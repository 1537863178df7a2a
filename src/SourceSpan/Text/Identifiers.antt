-- ===== src/SourceSpan/Text/Identifiers.antt =====
-- `identifier_at` of rintel/source_span/text.py: the whole identifier around an index.
use rintel_core.Prelude.{
  ℕ, zero, suc, ◌+◌, ◌-◌, ◌≤◌, ◌<◌, Bool, true, false, some, some-inj, none-some, List, [], ◌∷◌,
  get_elem?, Bool-cases, inl, inr, ◌⊎◌, ◌≡◌, refl, sym, ap, ◌∙◌, subst, arith,
}
use rintel_core.SourceSpan.Text.{
  is_ident, char_is, stands_at, back_over, run_length, identifier_at, drop, take,
}

passed : (i k : ℕ) → suc i ≤ k → k < suc i → ⊥
passed i k h l = omega (arith, h, l)

last_or_less : (i k : ℕ) → k < suc i → (k ≡ i) ⊎ (k < i)
last_or_less i k h = omega (arith, h)

none_before : (k : ℕ) → k < 0 → ⊥
none_before k h = omega (arith, h)

module _ (p : ℕ → Bool) where
  -- every character from `a` up to `b` tests
  abbrev pub Fills : List ℕ → ℕ → ℕ → Type 0
  Fills cs a b = (k : ℕ) → a ≤ k → k < b → stands_at p cs k ≡ true

  -- no character that tests stands in front of `a`
  abbrev pub Begins : List ℕ → ℕ → Type 0
  Begins cs a = (a ≡ 0) ⊎ (stands_at p cs (a - 1) ≡ false)

  back_over-bound : (cs : List ℕ) (i : ℕ) → back_over p cs i ≤ i
  back_over-bound cs zero = omega arith
  back_over-bound cs (suc i) =
      let rest = back_over-bound cs i in
      elim (Bool-cases (stands_at p cs i)) [
        | inl q ↦ rw q (omega (arith, rest))
        | inr q ↦ rw q (omega arith)
      ]

  back_over-Begins : (cs : List ℕ) (i : ℕ) → Begins cs (back_over p cs i)
  back_over-Begins cs zero = inl refl
  back_over-Begins cs (suc i) = elim (Bool-cases (stands_at p cs i)) [
    | inl q ↦ rw q (back_over-Begins cs i)
    | inr q ↦
        let less : suc i - 1 ≡ i = omega arith in
        rw q (inr (subst (λ n. stands_at p cs n ≡ false) (sym less) q))
  ]

  filled :
      (cs : List ℕ) (i k a : ℕ)
      → stands_at p cs i ≡ true
      → Fills cs a i
      → a ≤ k
      → k < suc i
      → stands_at p cs k ≡ true
  filled cs i k a q h l m = elim (last_or_less i k m) [
    | inl e ↦ subst (λ n. stands_at p cs n ≡ true) (sym e) q
    | inr n ↦ h k l n
  ]

  back_over-Fills : (cs : List ℕ) (i : ℕ) → Fills cs (back_over p cs i) i
  back_over-Fills cs zero k h l = absurd (omega (arith, l))
  back_over-Fills cs (suc i) k h l = elim (Bool-cases (stands_at p cs i)) [
    | inl q ↦ filled cs i k (back_over p cs i) q (back_over-Fills cs i) (rw q at h) l
    | inr q ↦ absurd (passed i k (rw q at h) l)
  ]

  at_head :
      (c : ℕ) (cs : List ℕ) (k : ℕ)
      → p c ≡ true
      → ((k : ℕ) → k < run_length p cs → stands_at p cs k ≡ true)
      → k < suc (run_length p cs)
      → stands_at p (c ∷ cs) k ≡ true
  at_head c cs zero q h l = q
  at_head c cs (suc k) q h l = h k (omega (arith, l))

  run_length-Fills : (cs : List ℕ) (k : ℕ) → k < run_length p cs → stands_at p cs k ≡ true
  run_length-Fills [] k h = absurd (omega (arith, h))
  run_length-Fills (c ∷ cs) k h = elim (Bool-cases (p c)) [
    | inl q ↦ at_head c cs k q (run_length-Fills cs) (rw q at h)
    | inr q ↦ absurd (none_before k (rw q at h))
  ]

  run_length-end : (cs : List ℕ) → stands_at p cs (run_length p cs) ≡ false
  run_length-end [] = refl
  run_length-end (c ∷ cs) = elim (Bool-cases (p c)) [
    | inl q ↦ rw q (run_length-end cs)
    | inr q ↦ rw q q
  ]

get-drop : (cs : List ℕ) (i n : ℕ) → get_elem? (drop i cs) n ≡ get_elem? cs (i + n)
get-drop cs zero n = let e : n ≡ 0 + n = omega arith in ap (get_elem? cs) e
get-drop [] (suc i) n = refl
get-drop (c ∷ cs) (suc i) n =
    let e : suc (i + n) ≡ suc i + n = omega arith in get-drop cs i n ∙ ap (get_elem? (c ∷ cs)) e

before_or_not : (i k : ℕ) → (k < i) ⊎ (i ≤ k)
before_or_not i k = omega arith

not_empty :
    (masked : List ℕ) (i n : ℕ)
    → stands_at is_ident masked i ≡ true
    → stands_at is_ident masked (i + n) ≡ false
    → 1 ≤ n
not_empty masked i zero h k =
    let e : i + 0 ≡ i = omega arith in
    let same = sym (ap (stands_at is_ident masked) e) ∙ k in absurd (ground (arith, h, same))
not_empty masked i (suc n) h k = omega arith

-- what `identifier_at` promises of a token at an index
abbrev pub IsIdentifier : List ℕ → ℕ → List ℕ × ℕ × ℕ → Type 0
IsIdentifier masked i (token, a, b) =
    (token ≡ take (b - a) (drop a masked))
    × (a ≤ i)
    × (i < b)
    × Fills is_ident masked a b
    × Begins is_ident masked a
    × (stands_at is_ident masked b ≡ false)

around :
    (masked : List ℕ) (i : ℕ)
    → stands_at is_ident masked i ≡ true
    → (let a = back_over is_ident masked i in
        let b = i + run_length is_ident (drop i masked) in
        IsIdentifier masked i (take (b - a) (drop a masked), a, b))
around masked i h =
    let n = run_length is_ident (drop i masked) in
    let there : (k : ℕ) → stands_at is_ident (drop i masked) k ≡ stands_at is_ident masked (i + k) =
      λ k. ap (char_is is_ident) (get-drop masked i k) in
    let stop = sym (there n) ∙ run_length-end is_ident (drop i masked) in
    let some_char : 1 ≤ n = not_empty masked i n h stop in
    (
      refl,
      back_over-bound is_ident masked i,
      omega (arith, some_char),
      λ k low high. elim (before_or_not i k) [
        | inl l ↦ back_over-Fills is_ident masked i k low l
        | inr l ↦
            let e : i + (k - i) ≡ k = omega (arith, l) in
            sym (ap (stands_at is_ident masked) e)
            ∙ sym (there (k - i))
            ∙ run_length-Fills is_ident (drop i masked) (k - i) (omega (arith, l, high))
      ],
      back_over-Begins is_ident masked i,
      stop,
    )

-- A token that `identifier_at` returns covers the index, holds only characters of identifiers, and is
-- the whole of them: none stands in front of it or behind it.
pub identifier_at-IsIdentifier :
    (masked : List ℕ) (i : ℕ) (found : List ℕ × ℕ × ℕ)
    → identifier_at masked i ≡ some found
    → IsIdentifier masked i found
unfolding identifier_at
identifier_at-IsIdentifier masked i found h = elim (Bool-cases (stands_at is_ident masked i)) [
  | inl q ↦ subst (IsIdentifier masked i) (some-inj (rw q at h)) (around masked i q)
  | inr q ↦ absurd (none-some (rw q at h))
]
