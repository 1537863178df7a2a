-- ===== src/SourceSpan/Text/Parens.antt =====
-- `match_paren` of rintel/source_span/text.py, against texts whose parentheses are balanced.
use rintel_core.Prelude.{
  ℕ, zero, suc, ◌+◌, ◌-◌, true, false, Option, none, some, some-inj, none-some, if◌then◌else◌,
  subst, List, [], ◌∷◌, ◌++◌, length, length-append, get_elem?, Bool-cases, inl, inr, ◌≡◌, ◌↔◌,
  refl, sym, ap, ◌∙◌, arith, ◌==◌, nat_eq,
}
use rintel_core.SourceSpan.Text.{is_open, close_paren, match_paren, drop}

-- texts with a closing parenthesis for every opening one
pub data Balanced : List ℕ → Type 0 where
  nothing : Balanced []
  plain :
      {cs : List ℕ} (c : ℕ)
      → (c == b'(') ≡ false
      → (c == b')') ≡ false
      → Balanced cs
      → Balanced (c ∷ cs)
  group : {bs cs : List ℕ} → Balanced bs → Balanced cs → Balanced (b'(' ∷ (bs ++ (b')' ∷ cs)))

append_assoc : {A : Type 0} (xs ys zs : List A) → (xs ++ ys) ++ zs ≡ xs ++ (ys ++ zs)
append_assoc [] ys zs = refl
append_assoc (x ∷ xs) ys zs = ap (λ t. x ∷ t) (append_assoc xs ys zs)

close_plain :
    (c : ℕ) (cs : List ℕ) (i d : ℕ)
    → (c == b'(') ≡ false
    → (c == b')') ≡ false
    → close_paren (c ∷ cs) i d ≡ close_paren cs (suc i) d
close_plain c cs i d h k = rw (h, k) refl

close_inner :
    (cs : List ℕ) (i d : ℕ)
    → close_paren (b')' ∷ cs) i (suc (suc d)) ≡ close_paren cs (suc i) (suc d)
close_inner cs i d =
    let less : suc (suc d) - 1 ≡ suc d = omega arith in
    let q : (suc (suc d) == 1) ≡ false = ground arith in rw q (ap (close_paren cs (suc i)) less)

-- a balanced text leaves the depth as it is
close_paren-Balanced :
    (bs rest : List ℕ) (i d : ℕ)
    → Balanced bs
    → close_paren (bs ++ rest) i (suc d) ≡ close_paren rest (i + length bs) (suc d)
close_paren-Balanced [] rest i d nothing =
    let e : i ≡ i + 0 = omega arith in ap (λ n. close_paren rest n (suc d)) e
close_paren-Balanced _ rest i d (plain {cs = cs} c h k b) =
    let e : suc i + length cs ≡ i + suc (length cs) = omega arith in
    close_plain c (cs ++ rest) i (suc d) h k
    ∙ close_paren-Balanced cs rest (suc i) d b
    ∙ ap (λ n. close_paren rest n (suc d)) e
close_paren-Balanced _ rest i d (group {bs = ms} {cs = cs} a b) =
    let inner : (ms ++ (b')' ∷ cs)) ++ rest ≡ ms ++ ((b')' ∷ cs) ++ rest) =
      (append_assoc ms (b')' ∷ cs) rest) in
    let e : suc (suc i + length ms) + length cs ≡ i + suc (length (ms ++ (b')' ∷ cs))) =
      omega (arith, length-append ms (b')' ∷ cs)) in
    ap (λ t. close_paren t (suc i) (suc (suc d))) inner
    ∙ close_paren-Balanced ms ((b')' ∷ cs) ++ rest) (suc i) (suc d) a
    ∙ close_inner (cs ++ rest) (suc i + length ms) d
    ∙ close_paren-Balanced cs rest (suc (suc i + length ms)) d b
    ∙ ap (λ n. close_paren rest n (suc d)) e

get-append : (xs : List ℕ) (c : ℕ) (ys : List ℕ) → get_elem? (xs ++ (c ∷ ys)) (length xs) ≡ some c
get-append [] c ys = refl
get-append (x ∷ xs) c ys = get-append xs c ys

drop-append : (xs ys : List ℕ) → drop (length xs) (xs ++ ys) ≡ ys
drop-append [] ys = refl
drop-append (x ∷ xs) ys = drop-append xs ys

-- Wherever a group in parentheses stands in a masked text, with balanced text inside, the index of its
-- opening parenthesis is matched with that of its closing one.
match_paren-Balanced :
    (before inner after : List ℕ)
    → Balanced inner
    → match_paren (before ++ (b'(' ∷ (inner ++ (b')' ∷ after)))) (length before)
      ≡ some (length before + length inner + 1)
unfolding match_paren
match_paren-Balanced before inner after b =
    let inside = inner ++ (b')' ∷ after) in
    let i = length before in
    let e : suc i + length inner ≡ i + length inner + 1 = omega arith in
    rw (get-append before b'(' inside, drop-append before (b'(' ∷ inside))
      (close_paren-Balanced inner (b')' ∷ after) (suc i) 0 b ∙ ap some e)

-- `n + 1` balanced texts one after the other, each with its closing parenthesis, the last one of
-- which has index `k`
abbrev Blocks : ℕ → List ℕ → ℕ → Type 0
Blocks zero cs k =
    (b : List ℕ) × (rest : List ℕ) × (cs ≡ b ++ (b')' ∷ rest)) × Balanced b × (k ≡ length b)
Blocks (suc n) cs k =
    (b : List ℕ) × (rest : List ℕ) × (m : ℕ) × (cs ≡ b ++ (b')' ∷ rest))
    × Balanced b
    × (k ≡ length b + 1 + m)
    × Blocks n rest m

longer_block :
    (n k c : ℕ) (cs : List ℕ)
    → (c == b'(') ≡ false
    → (c == b')') ≡ false
    → Blocks n cs k
    → Blocks n (c ∷ cs) (suc k)
longer_block zero k c cs h i (b, rest, e, a, l) =
    (c ∷ b, rest, ap (λ t. c ∷ t) e, plain c h i a, omega (arith, l))
longer_block (suc n) k c cs h i (b, rest, m, e, a, l, bs) =
    (c ∷ b, rest, m, ap (λ t. c ∷ t) e, plain c h i a, omega (arith, l), bs)

grouped :
    (cs b rest d more : List ℕ)
    → cs ≡ b ++ (b')' ∷ rest)
    → rest ≡ d ++ (b')' ∷ more)
    → b'(' ∷ cs ≡ (b'(' ∷ (b ++ (b')' ∷ d))) ++ (b')' ∷ more)
grouped cs b rest d more e f =
    ap (λ t. b'(' ∷ t)
      (e ∙ ap (λ t. b ++ (b')' ∷ t)) f ∙ sym (append_assoc b (b')' ∷ d) (b')' ∷ more)))

grouped_length : (b d : List ℕ) → length (b'(' ∷ (b ++ (b')' ∷ d))) ≡ length b + length d + 2
grouped_length b d = omega (arith, length-append b (b')' ∷ d))

merged_block : (n k : ℕ) (cs : List ℕ) → Blocks (suc n) cs k → Blocks n (b'(' ∷ cs) (suc k)
merged_block zero k cs (b, rest, m, e, a, l, (d, more, f, g, i)) = (
  b'(' ∷ (b ++ (b')' ∷ d)),
  more,
  grouped cs b rest d more e f,
  group a g,
  omega (arith, l, i, grouped_length b d),
)
merged_block (suc n) k cs (b, rest, m, e, a, l, (d, more, u, f, g, i, bs)) = (
  b'(' ∷ (b ++ (b')' ∷ d)),
  more,
  u,
  grouped cs b rest d more e f,
  group a g,
  omega (arith, l, i, grouped_length b d),
  bs,
)

-- a closing parenthesis ends the last block, or the first of several
closes :
    (cs : List ℕ) (i n j : ℕ)
    → ((i n j : ℕ) → close_paren cs i (suc n) ≡ some j → (k : ℕ) × Blocks n cs k × (j ≡ i + k))
    → (if suc n == 1 then some i else close_paren cs (suc i) (suc n - 1)) ≡ some j
    → (k : ℕ) × Blocks n (b')' ∷ cs) k × (j ≡ i + k)
closes cs i zero j rest h = (0, ([], cs, refl, nothing, refl), sym (some-inj h) ∙ omega arith)
closes cs i (suc n) j rest h =
    let q : (suc (suc n) == 1) ≡ false = ground arith in
    let less : suc (suc n) - 1 ≡ suc n = omega arith in
    let g : close_paren cs (suc i) (suc n) ≡ some j =
      subst (λ d. close_paren cs (suc i) d ≡ some j) less (rw q at h) in
    let (k, bs, e) = rest (suc i) n j g in
    (suc k, ([], cs, k, refl, nothing, omega arith, bs), omega (arith, e))

close_paren-Blocks :
    (cs : List ℕ) (i n j : ℕ)
    → close_paren cs i (suc n) ≡ some j
    → (k : ℕ) × Blocks n cs k × (j ≡ i + k)
close_paren-Blocks [] i n j h = absurd (none-some h)
close_paren-Blocks (c ∷ cs) i n j h = elim (Bool-cases (c == b'(')) [
  | inl q ↦
      let one : c ≡ b'(' = ground (arith, q) in
      let (k, bs, e) = close_paren-Blocks cs (suc i) (suc n) j (rw q at h) in
      (
        suc k,
        subst (λ c. Blocks n (c ∷ cs) (suc k)) (sym one) (merged_block n k cs bs),
        omega (arith, e),
      )
  | inr q ↦ elim (Bool-cases (c == b')')) [
    | inr p ↦
        let (k, bs, e) = close_paren-Blocks cs (suc i) n j (rw (q, p) at h) in
        (suc k, longer_block n k c cs q p bs, omega (arith, e))
    | inl p ↦
        let one : c ≡ b')' = ground (arith, p) in
        let (k, bs, e) = closes cs i n j (close_paren-Blocks cs) (rw (q, p) at h) in
        (k, subst (λ c. Blocks n (c ∷ cs) k) (sym one) bs, e)
  ]
]

split-get :
    (xs : List ℕ) (i c : ℕ)
    → get_elem? xs i ≡ some c
    → (before : List ℕ) × (rest : List ℕ) × (xs ≡ before ++ (c ∷ rest)) × (length before ≡ i)
split-get [] i c h = absurd (none-some h)
split-get (x ∷ xs) zero c h = ([], xs, ap (λ y. y ∷ xs) (some-inj h), refl)
split-get (x ∷ xs) (suc i) c h =
    let (before, rest, e, l) = split-get xs i c h in (x ∷ before, rest, ap (λ t. x ∷ t) e, ap suc l)

is_open-some : (o : Option ℕ) → is_open o ≡ true → o ≡ some b'('
is_open-some none h = absurd cc
is_open-some (some c) h = ground (arith, h)

-- a group in parentheses that opens at `i` and closes at `j`
abbrev pub IsGroup : List ℕ → ℕ → ℕ → Type 0
IsGroup masked i j =
    (before : List ℕ) × (inner : List ℕ) × (after : List ℕ) × (masked
      ≡ before ++ (b'(' ∷ (inner ++ (b')' ∷ after))))
    × (length before ≡ i)
    × Balanced inner
    × (j ≡ i + length inner + 1)

opened-IsGroup :
    (masked : List ℕ) (i j : ℕ)
    → get_elem? masked i ≡ some b'('
    → close_paren (drop i masked) i 0 ≡ some j
    → IsGroup masked i j
opened-IsGroup masked i j o h =
    let (before, rest, e, l) = split-get masked i b'(' o in
    let d : drop i masked ≡ b'(' ∷ rest =
      ap (drop i) e
      ∙ ap (λ n. drop n (before ++ (b'(' ∷ rest))) (sym l)
      ∙ drop-append before (b'(' ∷ rest) in
    let (k, (inner, after, f, b, m), g) = close_paren-Blocks rest (suc i) 0 j (rw d at h) in
    (before, inner, after, e ∙ ap (λ t. before ++ (b'(' ∷ t)) f, l, b, omega (arith, g, m))

-- A parenthesis is matched with another one exactly when they are the two ends of a group: the text
-- between them is balanced.
pub match_paren_iff :
    (masked : List ℕ) (i j : ℕ) → (match_paren masked i ≡ some j) ↔ IsGroup masked i j
unfolding match_paren
match_paren_iff masked i j = (
  λ h. elim (Bool-cases (is_open (get_elem? masked i))) [
    | inl q ↦ opened-IsGroup masked i j (is_open-some (get_elem? masked i) q) (rw q at h)
    | inr q ↦ absurd (none-some (rw q at h))
  ],
  λ g.
      let (before, inner, after, e, l, b, k) = g in
      subst (λ t. match_paren t i ≡ some j) (sym e)
        (subst (λ n. match_paren (before ++ (b'(' ∷ (inner ++ (b')' ∷ after)))) n ≡ some j) l
          (match_paren-Balanced before inner after b ∙ ap some (omega (arith, k, l)))),
)
