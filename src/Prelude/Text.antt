-- ===== src/Prelude/Text.antt =====
-- Texts as their code points, and Python's `str.strip` and `fnmatch.fnmatchcase` as far as the
-- program uses them.
use Prim.Native.Nat.{ℕ}
use Prim.Native.Char.{Char, code}
use Prim.Native.String.{String}
use mathlib.Core.Bool.{Bool, true, false, ◌&&◌, ◌||◌}
use mathlib.Core.List.{List, [], ◌∷◌}
use rintel_core.Prelude.Tests.{nat_beq, leb}

abbrev pub codes : String → List ℕ
codes String.[] = []
codes (String.◌∷◌ c s) = code c ∷ codes s

-- `str.isspace`
abbrev is_space : ℕ → Bool
is_space c =
    leb 9 c && leb c 13
    || leb 28 c && leb c 32
    || nat_beq c 133
    || nat_beq c 160
    || nat_beq c 5760
    || leb 8192 c && leb c 8202
    || nat_beq c 8232
    || nat_beq c 8233
    || nat_beq c 8239
    || nat_beq c 8287
    || nat_beq c 12288

all_space : List ℕ → Bool
all_space [] = true
all_space (c ∷ cs) = is_space c && all_space cs

-- `not value.strip()`
unfoldable pub is_blank : String → Bool
unfolding all_space
is_blank s = all_space (codes s)

any_suffix : (List ℕ → Bool) → List ℕ → Bool
any_suffix f [] = f []
any_suffix f (c ∷ cs) = f (c ∷ cs) || any_suffix f cs

-- A pattern of characters, `?` and `*`; no registered pattern has a class `[...]`.
glob : List ℕ → List ℕ → Bool
unfolding any_suffix
glob [] [] = true
glob [] (c ∷ cs) = false
glob (p ∷ ps) cs = elim (nat_beq p b'*') [
  | true ↦ any_suffix (glob ps) cs
  | false ↦ elim cs [ [] ↦ false | d ∷ ds ↦ (nat_beq p d || nat_beq p b'?') && glob ps ds ]
]

-- `fnmatchcase(name, pattern)`
unfoldable pub fnmatchcase : String → String → Bool
unfolding glob
fnmatchcase name pattern_text = glob (codes pattern_text) (codes name)

abbrev strip_left : String → String
strip_left String.[] = ""
strip_left (String.◌∷◌ c s) =
    let rest = strip_left s in elim (is_space (code c)) [ true ↦ rest | false ↦ String.◌∷◌ c s ]

abbrev put : Char → String → String
put c String.[] = elim (is_space (code c)) [ true ↦ "" | false ↦ String.◌∷◌ c "" ]
put c s = String.◌∷◌ c s

abbrev strip_right : String → String
strip_right String.[] = ""
strip_right (String.◌∷◌ c s) = put c (strip_right s)

-- `value.strip()`
unfoldable pub strip : String → String
strip s = strip_right (strip_left s)
