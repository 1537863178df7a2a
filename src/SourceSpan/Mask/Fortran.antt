-- ===== src/SourceSpan/Mask/Fortran.antt =====
-- `mask_fortran` of rintel/source_span/mask.py. `line_start` and `in_s` are one mode;
-- the inner loops that blank up to the end of a line are the mode `comment`.
use rintel_core.Prelude.{ℕ, Bool, ◌&&◌, ◌||◌, not, Option, List, ◌==◌, nat_eq, if◌then◌else◌}
use rintel_core.SourceSpan.Mask.Kept.{space, newline}
use rintel_core.SourceSpan.Mask.Loop.{Pass, one, two, next_is, run}

-- `line_start` with no string open; behind the start of the line; inside a string with that
-- quote; inside a comment
pub data Mode : Type 0 where
  start middle : Mode
  quoted : ℕ → Mode
  comment : Mode

-- `c in "Cc*"`
abbrev pub is_comment_mark : ℕ → Bool
is_comment_mark c = c == b'C' || c == b'c' || c == b'*'

-- the branches behind the test on `line_start`
middle_pass : ℕ → Pass Mode
middle_pass c =
    if c == b'!'
    then one space comment
    else if c == b'\'' || c == b'"'
    then one space (quoted c)
    else one c middle

unfoldable pub pass : Mode → ℕ → Option ℕ → Pass Mode
unfolding middle_pass
pass (quoted q) c nxt =
    if c == newline
    then one c start
    else if c == q
    then (if next_is q nxt then two space space (quoted q) else one space middle)
    else one space (quoted q)
pass comment c nxt = if c == newline then one c start else one space comment
pass start c nxt =
    if c == newline
    then one c start
    else if is_comment_mark c && not (next_is newline nxt)
    then one space comment
    else middle_pass c
pass middle c nxt = if c == newline then one c start else middle_pass c

unfoldable pub mask_fortran : List ℕ → List ℕ
unfolding run pass
mask_fortran text = run pass start text
