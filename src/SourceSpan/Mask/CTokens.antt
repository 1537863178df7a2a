-- ===== src/SourceSpan/Mask/CTokens.antt =====
-- `mask_c` against a grammar of C's lexical forms that does not mention the loop.
use rintel_core.Prelude.{
  ℕ, ◌≡◌, ◌≢◌, refl, ap, ◌∙◌, Option, some, List, [], ◌∷◌, ◌++◌, map, All, arith,
}
use rintel_core.SourceSpan.Mask.Kept.{space, newline, blank}
use rintel_core.SourceSpan.Mask.Loop.{one, two, run, run-one, run-two, run-cons_one}
use rintel_core.SourceSpan.Mask.C.{
  Mode, code, line_comment, block_comment, string_literal, char_literal, pass, mask_c,
}

-- a character of a literal: as it stands, or behind a backslash
pub data Piece : Type 0 where
  bare escaped : ℕ → Piece

-- `divide c` is a slash with the character behind it; a line comment has its newline.
pub data Token : Type 0 where
  plain divide : ℕ → Token
  line block : List ℕ → Token
  string quoted_char : List Piece → Token

abbrev pub print_pieces : List Piece → List ℕ → List ℕ
print_pieces [] rest = rest
print_pieces (bare c ∷ ps) rest = c ∷ print_pieces ps rest
print_pieces (escaped c ∷ ps) rest = b'\\' ∷ c ∷ print_pieces ps rest

abbrev pub blank_pieces : List Piece → List ℕ → List ℕ
blank_pieces [] rest = rest
blank_pieces (bare c ∷ ps) rest = blank c ∷ blank_pieces ps rest
blank_pieces (escaped c ∷ ps) rest = space ∷ blank c ∷ blank_pieces ps rest

-- the characters of a token, in front of what follows
abbrev pub print_token : Token → List ℕ → List ℕ
print_token (plain c) rest = c ∷ rest
print_token (divide c) rest = b'/' ∷ c ∷ rest
print_token (line body) rest = b'/' ∷ b'/' ∷ (body ++ newline ∷ rest)
print_token (block body) rest = b'/' ∷ b'*' ∷ (body ++ b'*' ∷ b'/' ∷ rest)
print_token (string ps) rest = b'"' ∷ print_pieces ps (b'"' ∷ rest)
print_token (quoted_char ps) rest = b'\'' ∷ print_pieces ps (b'\'' ∷ rest)

-- the same with comments and literals blanked, newlines kept
abbrev pub blank_token : Token → List ℕ → List ℕ
blank_token (plain c) rest = c ∷ rest
blank_token (divide c) rest = b'/' ∷ c ∷ rest
blank_token (line body) rest = space ∷ space ∷ (map blank body ++ newline ∷ rest)
blank_token (block body) rest = space ∷ space ∷ (map blank body ++ space ∷ space ∷ rest)
blank_token (string ps) rest = space ∷ blank_pieces ps (space ∷ rest)
blank_token (quoted_char ps) rest = space ∷ blank_pieces ps (space ∷ rest)

abbrev pub print_tokens : List Token → List ℕ
print_tokens [] = []
print_tokens (t ∷ ts) = print_token t (print_tokens ts)

abbrev pub blank_tokens : List Token → List ℕ
blank_tokens [] = []
blank_tokens (t ∷ ts) = blank_token t (blank_tokens ts)

abbrev pub IsPlain : ℕ → Type 0
IsPlain c = (c ≢ b'/') × (c ≢ b'"') × (c ≢ b'\'')

abbrev pub IsPiece : ℕ → Piece → Type 0
IsPiece q (bare c) = (c ≢ q) × (c ≢ b'\\')
IsPiece q (escaped c) = Unit {0}

-- no `*/` inside
abbrev pub HasNoClose : List ℕ → Type 0
HasNoClose [] = Unit {0}
HasNoClose (c ∷ []) = Unit {0}
HasNoClose (c ∷ d ∷ rest) = ((c ≡ b'*') → d ≢ b'/') × HasNoClose (d ∷ rest)

abbrev pub StartsWithSlash : List ℕ → Type 0
StartsWithSlash [] = ⊥
StartsWithSlash (c ∷ rest) = c ≡ b'/'

-- A token of C. A block comment that starts with a slash is one too, and is excluded.
abbrev pub IsToken : Token → Type 0
IsToken (plain c) = IsPlain c
IsToken (divide c) = IsPlain c × (c ≢ b'*')
IsToken (line body) = All (λ c. c ≢ newline) body
IsToken (block body) = HasNoClose body × (¬ StartsWithSlash body)
IsToken (string ps) = All (IsPiece b'"') ps
IsToken (quoted_char ps) = All (IsPiece b'\'') ps

pass-plain : (c : ℕ) (nxt : Option ℕ) → IsPlain c → pass code c nxt ≡ one c code
unfolding pass
pass-plain c nxt h = ground arith

pass-divide : (c : ℕ) → IsPlain c → c ≢ b'*' → pass code b'/' (some c) ≡ one b'/' code
unfolding pass
pass-divide c h k = ground arith

pass-line :
    (c : ℕ) (nxt : Option ℕ) → c ≢ newline → pass line_comment c nxt ≡ one (blank c) line_comment
unfolding pass
pass-line c nxt h = ground arith

pass-block :
    (c d : ℕ)
    → ((c ≡ b'*') → d ≢ b'/')
    → pass block_comment c (some d) ≡ one (blank c) block_comment
unfolding pass
pass-block c d h = ground arith

mask-line :
    (body rest : List ℕ)
    → All (λ c. c ≢ newline) body
    → run pass line_comment (body ++ newline ∷ rest)
      ≡ map blank body ++ newline ∷ run pass code rest
mask-line [] rest h =
    run-cons_one pass line_comment newline rest newline code (λ nxt. unfold pass in refl)
mask-line (c ∷ body) rest h =
    run-cons_one pass line_comment c (body ++ newline ∷ rest) (blank c) line_comment
      (λ nxt. pass-line c nxt h.0)
    ∙ ap (λ l. blank c ∷ l) (mask-line body rest h.1)

mask-block :
    (body rest : List ℕ)
    → HasNoClose body
    → run pass block_comment (body ++ b'*' ∷ b'/' ∷ rest)
      ≡ map blank body ++ space ∷ space ∷ run pass code rest
mask-block [] rest h =
    run-two pass block_comment b'*' b'/' rest space space code (unfold pass in refl)
mask-block (c ∷ []) rest h =
    run-one pass block_comment c b'*' (b'/' ∷ rest) (blank c) block_comment
      (pass-block c b'*' (λ e. ground arith))
    ∙ ap (λ l. blank c ∷ l) (mask-block [] rest tt)
mask-block (c ∷ d ∷ body) rest h =
    run-one pass block_comment c d (body ++ b'*' ∷ b'/' ∷ rest) (blank c) block_comment
      (pass-block c d h.0)
    ∙ ap (λ l. blank c ∷ l) (mask-block (d ∷ body) rest h.1)

module _ (m : Mode) (q : ℕ) (closes : (nxt : Option ℕ) → pass m q nxt ≡ one space code)
    (goes_on : (c : ℕ) (nxt : Option ℕ) → c ≢ q → c ≢ b'\\' → pass m c nxt ≡ one (blank c) m)
    (escapes : (d : ℕ) → pass m b'\\' (some d) ≡ two space (blank d) m) where
  mask-literal :
      (ps : List Piece) (rest : List ℕ)
      → All (IsPiece q) ps
      → run pass m (print_pieces ps (q ∷ rest)) ≡ blank_pieces ps (space ∷ run pass code rest)
  mask-literal [] rest h = run-cons_one pass m q rest space code closes
  mask-literal (bare c ∷ ps) rest h =
      run-cons_one pass m c (print_pieces ps (q ∷ rest)) (blank c) m
        (λ nxt. goes_on c nxt h.0.0 h.0.1)
      ∙ ap (λ l. blank c ∷ l) (mask-literal ps rest h.1)
  mask-literal (escaped c ∷ ps) rest h =
      run-two pass m b'\\' c (print_pieces ps (q ∷ rest)) space (blank c) m (escapes c)
      ∙ ap (λ l. space ∷ blank c ∷ l) (mask-literal ps rest h.1)

string_goes_on :
    (c : ℕ) (nxt : Option ℕ)
    → c ≢ b'"'
    → c ≢ b'\\'
    → pass string_literal c nxt ≡ one (blank c) string_literal
unfolding pass
string_goes_on c nxt h k = ground arith

char_goes_on :
    (c : ℕ) (nxt : Option ℕ)
    → c ≢ b'\''
    → c ≢ b'\\'
    → pass char_literal c nxt ≡ one (blank c) char_literal
unfolding pass
char_goes_on c nxt h k = ground arith

closes_string : (nxt : Option ℕ) → pass string_literal b'"' nxt ≡ one space code
unfolding pass
closes_string nxt = ground arith

closes_char : (nxt : Option ℕ) → pass char_literal b'\'' nxt ≡ one space code
unfolding pass
closes_char nxt = ground arith

mask-string :
    (ps : List Piece) (rest : List ℕ)
    → All (IsPiece b'"') ps
    → run pass string_literal (print_pieces ps (b'"' ∷ rest))
      ≡ blank_pieces ps (space ∷ run pass code rest)
mask-string =
    mask-literal string_literal b'"' closes_string string_goes_on (λ d. unfold pass in refl)

mask-char :
    (ps : List Piece) (rest : List ℕ)
    → All (IsPiece b'\'') ps
    → run pass char_literal (print_pieces ps (b'\'' ∷ rest))
      ≡ blank_pieces ps (space ∷ run pass code rest)
mask-char = mask-literal char_literal b'\'' closes_char char_goes_on (λ d. unfold pass in refl)

HasNoClose-star :
    (body : List ℕ) → HasNoClose body → ¬ StartsWithSlash body → HasNoClose (b'*' ∷ body)
HasNoClose-star [] h k = tt
HasNoClose-star (c ∷ body) h k = (λ _. k, h)

mask-token :
    (t : Token) (rest : List ℕ)
    → IsToken t
    → run pass code (print_token t rest) ≡ blank_token t (run pass code rest)
mask-token (plain c) rest h = run-cons_one pass code c rest c code (λ nxt. pass-plain c nxt h)
mask-token (divide c) rest h =
    run-one pass code b'/' c rest b'/' code (pass-divide c h.0 h.1)
    ∙ ap (λ l. b'/' ∷ l) (run-cons_one pass code c rest c code (λ nxt. pass-plain c nxt h.0))
mask-token (line body) rest h =
    run-one pass code b'/' b'/' (body ++ newline ∷ rest) space line_comment (unfold pass in refl)
    ∙ ap (λ l. space ∷ l)
        (run-cons_one pass line_comment b'/' (body ++ newline ∷ rest) space line_comment
            (λ nxt. unfold pass in refl)
          ∙ ap (λ l. space ∷ l) (mask-line body rest h))
mask-token (block body) rest h =
    run-one pass code b'/' b'*' (body ++ b'*' ∷ b'/' ∷ rest) space block_comment
      (unfold pass in refl)
    ∙ ap (λ l. space ∷ l) (mask-block (b'*' ∷ body) rest (HasNoClose-star body h.0 h.1))
mask-token (string ps) rest h =
    run-cons_one pass code b'"' (print_pieces ps (b'"' ∷ rest)) space string_literal
      (λ nxt. unfold pass in refl)
    ∙ ap (λ l. space ∷ l) (mask-string ps rest h)
mask-token (quoted_char ps) rest h =
    run-cons_one pass code b'\'' (print_pieces ps (b'\'' ∷ rest)) space char_literal
      (λ nxt. unfold pass in refl)
    ∙ ap (λ l. space ∷ l) (mask-char ps rest h)

run-tokens : (ts : List Token) → All IsToken ts → run pass code (print_tokens ts) ≡ blank_tokens ts
run-tokens [] h = unfold run in refl
run-tokens (t ∷ ts) h = mask-token t (print_tokens ts) h.0 ∙ ap (blank_token t) (run-tokens ts h.1)

-- On a text made of tokens, `mask_c` blanks the comments and the literals, keeps their newlines,
-- and leaves all else as it is.
pub mask_c-tokens : (ts : List Token) → All IsToken ts → mask_c (print_tokens ts) ≡ blank_tokens ts
unfolding mask_c
mask_c-tokens ts h = run-tokens ts h

-- A block comment that starts with a slash is taken to end there: what follows `/*/` is masked as
-- code, whatever it is.
pub mask_c-slash_star_slash :
    (rest : List ℕ) → mask_c (b'/' ∷ b'*' ∷ b'/' ∷ rest) ≡ space ∷ space ∷ space ∷ mask_c rest
unfolding mask_c
mask_c-slash_star_slash rest =
    run-one pass code b'/' b'*' (b'/' ∷ rest) space block_comment (unfold pass in refl)
    ∙ ap (λ l. space ∷ l)
        (run-two pass block_comment b'*' b'/' rest space space code (unfold pass in refl))
