-- ===== src/Examples/Masking.antt =====
-- The maskers of rintel/source_span/mask.py on short texts.
use rintel_core.Prelude.{ℕ, ◌≡◌, refl, List, [], ◌∷◌, codes, arith}
use rintel_core.SourceSpan.Mask.Kept.{SameOffsets}
use rintel_core.SourceSpan.Mask.C.{mask_c}
use rintel_core.SourceSpan.Mask.Fortran.{mask_fortran}
use rintel_core.SourceSpan.Mask.COffsets.{mask_c-SameOffsets}
use rintel_core.SourceSpan.Mask.FortranOffsets.{mask_fortran-SameOffsets}
use rintel_core.SourceSpan.Mask.CTokens.{
  Token, plain, divide, line, block, string, quoted_char, bare, escaped, print_tokens, blank_tokens,
  mask_c-tokens,
}

abbrev snippet : List ℕ
snippet = codes "a/b; // x\nc(\"\\\"q\", 'z'); /* y */ d"

snippet_masked : mask_c snippet ≡ codes "a/b;     \nc(     ,    );         d"
unfolding mask_c
snippet_masked = refl

mask_c-SameOffsets_example : SameOffsets snippet (mask_c snippet)
mask_c-SameOffsets_example = mask_c-SameOffsets snippet

abbrev tokens : List Token
tokens =
    plain b'a'
    ∷ divide b'b'
    ∷ block (codes "* y\n*")
    ∷ string (bare b'q' ∷ escaped b'"' ∷ [])
    ∷ quoted_char (escaped b'\'' ∷ [])
    ∷ line (codes " x /* ")
    ∷ plain b'c'
    ∷ []

mask_c-tokens_example : mask_c (print_tokens tokens) ≡ blank_tokens tokens
mask_c-tokens_example = mask_c-tokens tokens (omega arith)

abbrev fortran_snippet : List ℕ
fortran_snippet = codes "C old\n x = 'it''s' ! y\n* z"

fortran_masked : mask_fortran fortran_snippet ≡ codes "     \n x =            \n   "
unfolding mask_fortran
fortran_masked = refl

mask_fortran-SameOffsets_example : SameOffsets fortran_snippet (mask_fortran fortran_snippet)
mask_fortran-SameOffsets_example = mask_fortran-SameOffsets fortran_snippet
