-- ===== src/SourceSpan/Text/Positions.antt =====
-- Lines and columns of rintel/source_span/text.py, against a walk over the text.
use rintel_core.Prelude.{
  ℕ, zero, suc, ◌+◌, ◌-◌, ◌≤◌, true, false, some, List, [], ◌∷◌, length, ltb, leb, Bool-cases, inl,
  inr, ◌≡◌, refl, sym, ap, ◌∙◌, arith, ◌==◌, nat_eq, if◌then◌else◌,
}
use rintel_core.SourceSpan.Text.{
  starts_from, starts, bisect_right, entry, pos, line_count, at, index_of, slice_text, take, drop,
}

-- the position after `i` characters, from a line and a column
abbrev pub walk : ℕ → ℕ → List ℕ → ℕ → ℕ × ℕ
walk line column [] i = (line, column)
walk line column (c ∷ cs) zero = (line, column)
walk line column (c ∷ cs) (suc i) =
    walk (if c == b'\n' then suc line else line) (if c == b'\n' then 1 else suc column) cs i

bisect_right-starts_from : (o i : ℕ) (cs : List ℕ) → i ≤ o → bisect_right (starts_from o cs) i ≡ 0
bisect_right-starts_from o i [] h = refl
bisect_right-starts_from o i (c ∷ cs) h =
    let rest = bisect_right-starts_from (suc o) i cs (omega (arith, h)) in ground (arith, rest, h)

-- the position that the table of starts gives, behind a start
abbrev located : ℕ → ℕ → List ℕ → ℕ → ℕ × ℕ
located line s ss i = let k = bisect_right ss i in (line + k, i - entry (s ∷ ss) k + 1)

pair_eq : {a b c d : ℕ} → a ≡ b → c ≡ d → (let p : ℕ × ℕ = (a, c) in p ≡ (b, d))
pair_eq e f = rw (e, f) refl

-- a line that starts in front of `i` is passed
located_next :
    (line s t i : ℕ) (ss : List ℕ) → t ≤ i → located line s (t ∷ ss) i ≡ located (suc line) t ss i
located_next line s t i ss h =
    let q : leb t i ≡ true = ground (arith, h) in rw q (pair_eq (omega arith) refl)

located-walk :
    (line s o i : ℕ) (cs : List ℕ)
    → s ≤ o
    → i ≤ length cs
    → located line s (starts_from o cs) (o + i) ≡ walk line (o - s + 1) cs i
located-walk line s o i [] h k = pair_eq (omega arith) (omega (arith, k))
located-walk line s o zero (c ∷ cs) h k =
    let none_yet = bisect_right-starts_from o (o + 0) (c ∷ cs) (omega arith) in
    rw none_yet (pair_eq (omega arith) (omega arith))
located-walk line s o (suc i) (c ∷ cs) h k =
    let same : o + suc i ≡ suc o + i = omega arith in
    elim (Bool-cases (c == b'\n')) [
      | inl q ↦
          let one : suc o - suc o + 1 ≡ 1 = omega arith in
          rw (q, same)
            (located_next line s (suc o) (suc o + i) (starts_from (suc o) cs) (omega arith)
              ∙ located-walk (suc line) (suc o) (suc o) i cs (omega arith) (omega (arith, k))
              ∙ ap (λ n. walk (suc line) n cs i) one)
      | inr q ↦
          let more : suc o - s + 1 ≡ suc (o - s + 1) = omega (arith, h) in
          rw (q, same)
            (located-walk line s (suc o) i cs (omega (arith, h)) (omega (arith, k))
              ∙ ap (λ n. walk line n cs i) more)
    ]

first_line : (ss : List ℕ) (i : ℕ) → bisect_right (0 ∷ ss) i ≡ suc (bisect_right ss i)
first_line ss i = let q : leb 0 i ≡ true = ground arith in rw q refl

located-pos : (text : List ℕ) (i : ℕ) → pos text i ≡ located 1 0 (starts_from 0 text) i
unfolding pos starts
located-pos text i =
    let ss = starts_from 0 text in
    let less : suc (bisect_right ss i) - 1 ≡ bisect_right ss i = omega arith in
    rw (first_line ss i) (pair_eq (omega arith) (ap (λ n. i - entry (0 ∷ ss) n + 1) less))

-- The line and the column that the table of line starts gives for an index are those of a walk over
-- the text from line one, column one, in which a newline ends a line.
pub pos-walk : (text : List ℕ) (i : ℕ) → i ≤ length text → pos text i ≡ walk 1 1 text i
pos-walk text i h =
    let none_before : 0 + i ≡ i = omega arith in
    located-pos text i
    ∙ ap (λ n. located 1 0 (starts_from 0 text) n) (sym none_before)
    ∙ located-walk 1 0 0 i text (omega arith) h

entry_there : (k i s : ℕ) (ss : List ℕ) → k ≡ bisect_right ss i → s ≤ i → entry (s ∷ ss) k ≤ i
entry_there k i s [] e h = rw e h
entry_there k i s (t ∷ ss) e h = elim (Bool-cases (leb t i)) [
  | inl q ↦ rw (e, q) (entry_there (bisect_right ss i) i t ss refl (ground (arith, q)))
  | inr q ↦ rw (e, q) h
]

bisect_right-bound : (i : ℕ) (ss : List ℕ) → bisect_right ss i ≤ length ss
bisect_right-bound i [] = omega arith
bisect_right-bound i (s ∷ ss) = let rest = bisect_right-bound i ss in ground (arith, rest)

index_of-at :
    (text : List ℕ) (line column i : ℕ)
    → 1 ≤ line
    → line ≤ line_count text
    → entry (starts text) (line - 1) + column ≡ suc i
    → i ≤ length text
    → index_of text line column ≡ some (at i)
unfolding index_of
index_of-at text line column i h k e l =
    let a : ltb line 1 ≡ false = ground (arith, h) in
    let b : ltb (line_count text) line ≡ false = ground (arith, k) in
    let c : leb i (length text) ≡ true = ground (arith, l) in rw (a, b, e, c) refl

-- Every index up to the end of the text comes back from its line and column, which count from one and
-- stay within the text's lines.
pub index_of-pos :
    (text : List ℕ) (i : ℕ)
    → i ≤ length text
    → (1 ≤ (pos text i).0)
      × ((pos text i).0 ≤ line_count text)
      × (1 ≤ (pos text i).1)
      × (index_of text (pos text i).0 (pos text i).1 ≡ some (at i))
unfolding line_count starts
index_of-pos text i h =
    let ss = starts_from 0 text in
    let k = bisect_right ss i in
    let low = entry_there k i 0 ss refl (omega arith) in
    let bound = bisect_right-bound i ss in
    let less : 1 + k - 1 ≡ k = omega arith in
    let back : entry (0 ∷ ss) (1 + k - 1) + (i - entry (0 ∷ ss) k + 1) ≡ suc i =
      ap (λ n. entry (0 ∷ ss) n + (i - entry (0 ∷ ss) k + 1)) less ∙ omega (arith, low) in
    rw (located-pos text i) (
      omega arith,
      omega (arith, bound),
      omega arith,
      index_of-at text (1 + k) (i - entry (0 ∷ ss) k + 1) i (omega arith) (omega (arith, bound))
          back h,
    )

-- The text between the positions of two indices of the text is the one from the first index to the
-- second, both included.
pub slice_text-pos :
    (text : List ℕ) (i j : ℕ)
    → i ≤ j
    → j ≤ length text
    → slice_text text (pos text i) (pos text j) ≡ take (suc j - i) (drop i text)
unfolding slice_text
slice_text-pos text i j h k =
    let first = index_of-pos text i (omega (arith, h, k)) in
    let second = index_of-pos text j k in
    let q : ltb j i ≡ false = ground (arith, h) in rw (first.3, second.3, q) refl
