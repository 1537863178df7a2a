-- ===== src/SourceSpan/Text.antt =====
-- rintel/source_span/text.py: a file's text, its lines and columns, and the scans of its masked text.
-- Texts are code points. Indices, lines and columns are natural numbers, and the one index below zero
-- that a column of zero makes is a case of its own.
pub mod Positions
pub mod Parens
pub mod Identifiers
use rintel_core.Prelude.{
  ℕ, zero, suc, ◌+◌, ◌-◌, String, Bool, true, false, ◌&&◌, ◌||◌, not, Option, none, some, List, [],
  ◌∷◌, length, get_elem?, any, ltb, leb, codes, ◌==◌, nat_eq, string_eq, if◌then◌else◌,
}
use rintel_core.SourceSpan.Mask.C.{mask_c}
use rintel_core.SourceSpan.Mask.Fortran.{mask_fortran}

abbrev starts_from : ℕ → List ℕ → List ℕ
starts_from i [] = []
starts_from i (c ∷ cs) =
    let rest = starts_from (suc i) cs in if c == b'\n' then suc i ∷ rest else rest

-- `_starts`: where the lines start
unfoldable pub starts : List ℕ → List ℕ
starts text = 0 ∷ starts_from 0 text

-- `bisect_right` of a list that rises
abbrev pub bisect_right : List ℕ → ℕ → ℕ
bisect_right [] i = 0
bisect_right (s ∷ ss) i = let rest = bisect_right ss i in if leb s i then suc rest else 0

-- an entry of a list that is not out of its range
abbrev pub entry : List ℕ → ℕ → ℕ
entry xs n = elim (get_elem? xs n) [ none ↦ 0 | some s ↦ s ]

-- `pos`
unfoldable pub pos : List ℕ → ℕ → ℕ × ℕ
unfolding starts
pos text i =
    let line = bisect_right (starts text) i in (line, i - entry (starts text) (line - 1) + 1)

-- `line_count`
unfoldable pub line_count : List ℕ → ℕ
unfolding starts
line_count text = length (starts text)

pub data Offset : Type 0 where
  minus_one : Offset
  at : ℕ → Offset

abbrev pub before : ℕ → Offset
before zero = minus_one
before (suc n) = at n

abbrev pub within : List ℕ → Offset → Option Offset
within text minus_one = some minus_one
within text (at i) = if leb i (length text) then some (at i) else none

-- `index_of`
unfoldable pub index_of : List ℕ → ℕ → ℕ → Option Offset
unfolding starts line_count
index_of text line column =
    if ltb line 1 || ltb (line_count text) line
    then none
    else within text (before (entry (starts text) (line - 1) + column))

abbrev pub drop : ℕ → List ℕ → List ℕ
drop zero xs = xs
drop (suc n) [] = []
drop (suc n) (x ∷ xs) = drop n xs

abbrev pub take : ℕ → List ℕ → List ℕ
take zero xs = []
take (suc n) [] = []
take (suc n) (x ∷ xs) = x ∷ take n xs

-- `text[i0:i1 + 1]`, nothing when the second index is before the first one
abbrev pub cut : List ℕ → Option Offset → Option Offset → List ℕ
cut text (some (at i)) (some (at j)) = if ltb j i then [] else take (suc j - i) (drop i text)
cut text (some minus_one) (some (at j)) =
    take (suc j - (length text - 1)) (drop (length text - 1) text)
cut text i j = []

-- `slice_text`
unfoldable pub slice_text : List ℕ → ℕ × ℕ → ℕ × ℕ → List ℕ
unfolding index_of
slice_text text (sl, sc) (el, ec) = cut text (index_of text sl sc) (index_of text el ec)

abbrev is_break : ℕ → Bool
is_break c = c == b'\r' || c == b'\n'

-- `rstrip("\r\n")`
abbrev strip_breaks : List ℕ → List ℕ
strip_breaks [] = []
strip_breaks (c ∷ cs) = elim (strip_breaks cs) [
  | [] ↦ if is_break c then [] else c ∷ []
  | d ∷ ds ↦ c ∷ d ∷ ds
]

-- where a line ends, its newline left out
abbrev line_end : List ℕ → ℕ → ℕ
line_end text line =
    if ltb line (line_count text) then entry (starts text) line - 1 else length text

-- `line_text`
unfoldable pub line_text : List ℕ → ℕ → List ℕ
unfolding starts line_count
line_text text line =
    if ltb line 1 || ltb (line_count text) line
    then []
    else let start = entry (starts text) (line - 1) in
      strip_breaks (take (line_end text line - start) (drop start text))

-- the loop of `match_paren` from index `i`, `depth` parentheses open; a closing one with none open,
-- which cannot come, takes no step below zero
abbrev pub close_paren : List ℕ → ℕ → ℕ → Option ℕ
close_paren [] i depth = none
close_paren (c ∷ cs) i depth =
    let opened = close_paren cs (suc i) (suc depth) in
    let other = close_paren cs (suc i) depth in
    let closed = close_paren cs (suc i) (depth - 1) in
    if c == b'('
    then opened
    else if c == b')'
    then (if depth == 1 then some i else closed)
    else other

abbrev pub is_open : Option ℕ → Bool
is_open none = false
is_open (some c) = c == b'('

-- `match_paren`, on the masked text
unfoldable pub match_paren : List ℕ → ℕ → Option ℕ
match_paren masked i =
    if is_open (get_elem? masked i) then close_paren (drop i masked) i 0 else none

-- `mask_for`, by the language in small letters
unfoldable pub mask_for : List ℕ → List ℕ → List ℕ
mask_for [] text = mask_c text
mask_for (c ∷ lang) text = elim (c == b'f') [ true ↦ mask_fortran text | false ↦ mask_c text ]

-- `IDENT_CHARS`
abbrev pub is_ident : ℕ → Bool
is_ident c =
    leb b'a' c && leb c b'z'
    || leb b'A' c && leb c b'Z'
    || leb b'0' c && leb c b'9'
    || c == b'_'
    || c == b'$'

abbrev pub char_is : (ℕ → Bool) → Option ℕ → Bool
char_is p none = false
char_is p (some c) = p c

-- `p(masked[i])`, where the index is in the text
abbrev pub stands_at : (ℕ → Bool) → List ℕ → ℕ → Bool
stands_at p masked i = char_is p (get_elem? masked i)

-- the loop back from an index over characters for which `p` tests
abbrev pub back_over : (ℕ → Bool) → List ℕ → ℕ → ℕ
back_over p masked zero = 0
back_over p masked (suc a) =
    let rest = back_over p masked a in if stands_at p masked a then rest else suc a

-- how many characters of the list the loop forward passes
abbrev pub run_length : (ℕ → Bool) → List ℕ → ℕ
run_length p [] = 0
run_length p (c ∷ cs) = let rest = run_length p cs in if p c then suc rest else 0

-- `identifier_at`, on the masked text
unfoldable pub identifier_at : List ℕ → ℕ → Option (List ℕ × ℕ × ℕ)
identifier_at masked i =
    if not (stands_at is_ident masked i)
    then none
    else let a = back_over is_ident masked i in
      let b = i + run_length is_ident (drop i masked) in some (take (b - a) (drop a masked), a, b)

abbrev is_inside : ℕ → Bool
is_inside c = not (c == b';' || c == b'{' || c == b'}' || c == b'\n')

abbrev is_indent : ℕ → Bool
is_indent c = c == b' ' || c == b'\t'

-- `statement_start`, on the masked text, for an index that is not behind its end
unfoldable pub statement_start : List ℕ → ℕ → ℕ
statement_start masked i =
    let a = back_over is_inside masked i in a + run_length is_indent (drop a masked)
