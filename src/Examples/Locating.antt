-- ===== src/Examples/Locating.antt =====
-- Positions and parentheses in a text of two lines.
use rintel_core.Prelude.{◌≡◌, ◌↔◌, refl, ℕ, ◌≤◌, List, [], ◌∷◌, some, arith}
use rintel_core.SourceSpan.Text.{at, pos, line_count, index_of, match_paren, identifier_at}
use rintel_core.SourceSpan.Text.Positions.{walk, pos-walk, index_of-pos}
use rintel_core.SourceSpan.Text.Parens.{IsGroup, match_paren_iff}

abbrev two_lines : List ℕ
two_lines = b'a' ∷ b'\n' ∷ b'b' ∷ b'c' ∷ []

pos-walk_example : pos two_lines 3 ≡ walk 1 1 two_lines 3
pos-walk_example = pos-walk two_lines 3 (omega arith)

index_of-pos_example :
    (1 ≤ (pos two_lines 3).0)
    × ((pos two_lines 3).0 ≤ line_count two_lines)
    × (1 ≤ (pos two_lines 3).1)
    × (index_of two_lines (pos two_lines 3).0 (pos two_lines 3).1 ≡ some (at 3))
index_of-pos_example = index_of-pos two_lines 3 (omega arith)

abbrev call_text : List ℕ
call_text = b'f' ∷ b'(' ∷ b'x' ∷ b'(' ∷ b')' ∷ b')' ∷ b';' ∷ []

match_paren_iff_example : (match_paren call_text 1 ≡ some 5) ↔ IsGroup call_text 1 5
match_paren_iff_example = match_paren_iff call_text 1 5

match_paren_test : match_paren call_text 1 ≡ some 5
unfolding match_paren
match_paren_test = refl

position_test : pos two_lines 3 ≡ (2, 2)
unfolding pos
position_test = refl

abbrev sum_text : List ℕ
sum_text = b'+' ∷ b'a' ∷ b'1' ∷ b';' ∷ []

abbrev token : List ℕ
token = b'a' ∷ b'1' ∷ []

identifier_at_test : identifier_at sum_text 2 ≡ some (token, 1, 3)
unfolding identifier_at
identifier_at_test = refl
