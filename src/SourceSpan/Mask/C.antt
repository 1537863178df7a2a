-- ===== src/SourceSpan/Mask/C.antt =====
-- `mask_c` of rintel/source_span/mask.py. The four flags `in_str`, `in_char`, `in_lc` and `in_blk`
-- exclude each other, and are one mode here.
use rintel_core.Prelude.{ℕ, ◌&&◌, Option, none, some, List, ◌==◌, nat_eq, if◌then◌else◌}
use rintel_core.SourceSpan.Mask.Loop.{Pass, one, two, next_is, run}
use rintel_core.SourceSpan.Mask.Kept.{space, newline, blank}

pub data Mode : Type 0 where
  code line_comment block_comment string_literal char_literal : Mode

-- the branches of a literal with the closing quote `q`
literal_pass : Mode → ℕ → ℕ → Option ℕ → Pass Mode
literal_pass m q c none = if c == q then one space code else one (blank c) m
literal_pass m q c (some d) =
    if c == b'\\' then two space (blank d) m else if c == q then one space code else one (blank c) m

-- one pass of the loop at the character `c`, whose successor is `nxt`
unfoldable pub pass : Mode → ℕ → Option ℕ → Pass Mode
unfolding literal_pass
pass line_comment c nxt = if c == newline then one c code else one space line_comment
pass block_comment c nxt =
    if c == b'*' && next_is b'/' nxt then two space space code else one (blank c) block_comment
pass string_literal c nxt = literal_pass string_literal b'"' c nxt
pass char_literal c nxt = literal_pass char_literal b'\'' c nxt
pass code c nxt =
    if c == b'/' && next_is b'/' nxt
    then one space line_comment
    else if c == b'/' && next_is b'*' nxt
    then one space block_comment
    else if c == b'"'
    then one space string_literal
    else if c == b'\''
    then one space char_literal
    else one c code

unfoldable pub mask_c : List ℕ → List ℕ
unfolding run pass
mask_c text = run pass code text
