-- ===== src/SourceSpan/Mask/FortranOffsets.antt =====
-- `mask_fortran` keeps every offset, and a second masking changes nothing.
use rintel_core.Prelude.{ℕ, ◌≡◌, ◌≢◌, Option, none, some, List, arith}
use rintel_core.SourceSpan.Mask.Kept.{Kept, SameOffsets}
use rintel_core.SourceSpan.Mask.Loop.{one, two, KeepsOffsets, Settles, run-SameOffsets, run_idem}
use rintel_core.SourceSpan.Mask.Fortran.{Mode, start, middle, pass, mask_fortran}

one-Kept :
    (m : Mode) (c : ℕ) (nxt : Option ℕ) (o : ℕ) (m' : Mode) → pass m c nxt ≡ one o m' → Kept c o
unfolding pass
one-Kept m c nxt o m' h = ground arith

two-Kept :
    (m : Mode) (c d o p : ℕ) (m' : Mode) → pass m c (some d) ≡ two o p m' → Kept c o × Kept d p
unfolding pass
two-Kept m c d o p m' h = ground arith

end-ne-two : (m : Mode) (c o p : ℕ) (m' : Mode) → pass m c none ≢ two o p m'
unfolding pass
end-ne-two m c o p m' h = ground arith

fortran-KeepsOffsets : KeepsOffsets pass
fortran-KeepsOffsets = record { one_Kept = one-Kept; two_Kept = two-Kept; end_ne_two = end-ne-two }

-- The masked text has the length of the source; each character is the source's or a space, and a
-- newline stays where it is.
pub mask_fortran-SameOffsets : (text : List ℕ) → SameOffsets text (mask_fortran text)
unfolding mask_fortran
mask_fortran-SameOffsets text = run-SameOffsets pass fortran-KeepsOffsets start text

-- the mode of a second run
abbrev plain : Mode → Mode
plain start = start
plain _ = middle

settled :
    (m : Mode) (c d o x : ℕ) (m' : Mode)
    → pass m c (some d) ≡ one o m'
    → Kept d x
    → pass (plain m) o (some x) ≡ one o (plain m')
unfolding pass
settled m c d o x m' h k = ground arith

settled_end :
    (m : Mode) (c o : ℕ) (m' : Mode)
    → pass m c none ≡ one o m'
    → pass (plain m) o none ≡ one o (plain m')
unfolding pass
settled_end m c o m' h = ground arith

settled_first :
    (m : Mode) (c d o p : ℕ) (m' : Mode)
    → pass m c (some d) ≡ two o p m'
    → pass (plain m) o (some p) ≡ one o (plain m')
unfolding pass
settled_first m c d o p m' h = ground arith

settled_second :
    (m : Mode) (c d o p : ℕ) (m' : Mode) (nxt : Option ℕ)
    → pass m c (some d) ≡ two o p m'
    → pass (plain m') p nxt ≡ one p (plain m')
unfolding pass
settled_second m c d o p m' nxt h = ground arith

fortran-Settles : Settles pass plain
fortran-Settles = record {
  settled = settled;
  settled_end = settled_end;
  settled_first = settled_first;
  settled_second = settled_second;
}

-- Masking a masked text changes nothing.
pub mask_fortran_idem : (text : List ℕ) → mask_fortran (mask_fortran text) ≡ mask_fortran text
unfolding mask_fortran
mask_fortran_idem text = run_idem pass fortran-KeepsOffsets fortran-Settles start text
