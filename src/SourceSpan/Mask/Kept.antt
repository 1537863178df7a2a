-- ===== src/SourceSpan/Mask/Kept.antt =====
-- What it means that a masked text has the offsets of its source (rintel/source_span/mask.py).
use rintel_core.Prelude.{
  ℕ, suc, ◌≡◌, ◌≢◌, ◌⊎◌, inl, refl, ap, List, [], ◌∷◌, length, ◌==◌, nat_eq, if◌then◌else◌,
}

abbrev pub space : ℕ
space = b' '

abbrev pub newline : ℕ
newline = b'\n'

-- `if c != "\n": out[i] = " "`
abbrev pub blank : ℕ → ℕ
blank c = if c == newline then c else space

-- A character is written as it was, or is blanked; a newline is never blanked.
abbrev pub Kept : ℕ → ℕ → Type 0
Kept c o = (o ≡ c) ⊎ ((o ≡ space) × (c ≢ newline))

-- The same at each index of two texts of one length.
abbrev pub SameOffsets : List ℕ → List ℕ → Type 0
SameOffsets [] [] = Unit {0}
SameOffsets [] (o ∷ os) = ⊥
SameOffsets (c ∷ cs) [] = ⊥
SameOffsets (c ∷ cs) (o ∷ os) = Kept c o × SameOffsets cs os

pub length-SameOffsets : (cs os : List ℕ) → SameOffsets cs os → length os ≡ length cs
length-SameOffsets [] [] h = refl
length-SameOffsets [] (o ∷ os) h = absurd h
length-SameOffsets (c ∷ cs) [] h = absurd h
length-SameOffsets (c ∷ cs) (o ∷ os) h = ap suc (length-SameOffsets cs os h.1)

pub SameOffsets-refl : (cs : List ℕ) → SameOffsets cs cs
SameOffsets-refl [] = tt
SameOffsets-refl (c ∷ cs) = (inl refl, SameOffsets-refl cs)
