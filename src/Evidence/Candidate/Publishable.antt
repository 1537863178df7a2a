-- ===== src/Evidence/Candidate/Publishable.antt =====
-- The two tests of a provider's result, one a value and one an error.
use rintel_core.Prelude.{◌≡◌, refl, true, List, [], ◌∷◌, all, ok, arith, ◌↔◌, string_eq}
use rintel_core.Evidence.Candidate.{
  EvidenceCandidate, ProviderResult, fact_matches, is_empty, mismatches, publishable,
  require_publishable,
}

is_empty-mismatches :
    (r : ProviderResult) (fs : List EvidenceCandidate)
    → is_empty (mismatches r fs) ≡ all (fact_matches r) fs
is_empty-mismatches r [] = refl
is_empty-mismatches r (f ∷ fs) = ground (arith, is_empty-mismatches r fs)

-- A result passes the test that raises if and only if the property says that it is publishable.
pub require_publishable-publishable :
    (r : ProviderResult) → (require_publishable r ≡ ok tt) ↔ (publishable r ≡ true)
unfolding require_publishable publishable
require_publishable-publishable r = ground (arith, is_empty-mismatches r r.facts)
