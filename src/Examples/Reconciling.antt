-- ===== src/Examples/Reconciling.antt =====
-- Reconciliation (rintel/provider_arch/canonical.py) of three candidates: two for one slot, which
-- disagree, and one alone.
use mathlib.Core.List.{Perm}
use rintel_core.Prelude.{
  ◌≡◌, refl, some, List, [], ◌∷◌, map, All, ok, err, if◌then◌else◌, ◌==◌, string_eq,
}
use rintel_core.Prelude.Json.{text}
use rintel_core.Prelude.Groups.{group_by}
use rintel_core.Prelude.Sort.{sort_by}
use rintel_core.Evidence.Candidate.{EvidenceCandidate}
use rintel_core.Evidence.Admission.{candidate_of}
use rintel_core.Evidence.Canonical.Identity.{IdentityResolver, not_resolvable, Item, fate}
use rintel_core.Evidence.Canonical.Reconcile.{
  CanonicalizationResult, claim_of, evidence_of, conflict_of, slot_of, decide_all, disagree,
  resolve_all, reconcile_raw_candidates,
}
use rintel_core.Evidence.Canonical.Accounts.{Tells, Sorts, all_claims, reconcile-accounts}
use rintel_core.Evidence.Canonical.Agreement.{
  IsAgreed, Disagrees, reconcile-IsAgreed, reconcile-Disagrees,
}
use rintel_core.Examples.Samples.{sample_codec, sample_claim, sample_envelope}

abbrev resolver : IdentityResolver
resolver s c r = if s == "raw" then err not_resolvable else ok (some s)

abbrev first : EvidenceCandidate
first = candidate_of sample_envelope sample_claim

abbrev other : EvidenceCandidate
other = record first { provider_id = "legacy-builtin-c"; object_value = text "symbol:h" }

abbrev alone : EvidenceCandidate
alone = record first { subject = "symbol:k" }

abbrev raw : EvidenceCandidate
raw = record first { subject = "raw" }

abbrev item : EvidenceCandidate → Item
item c = record { candidate = c; subject = c.subject; object_value = c.object_value }

abbrev given : List EvidenceCandidate
given = first ∷ raw ∷ other ∷ alone ∷ []

abbrev outcome : CanonicalizationResult
outcome = record {
  evidence = evidence_of sample_codec (slot_of (item alone)) (item alone) (item alone ∷ []) ∷ [];
  conflicts = conflict_of sample_codec (slot_of (item first)) (item first ∷ item other ∷ []) ∷ [];
  unresolved = raw ∷ [];
}

reconciled : reconcile_raw_candidates sample_codec resolver given ≡ ok outcome
unfolding reconcile_raw_candidates resolve_all fate decide_all disagree group_by sort_by
reconciled = refl

reconcile-accounts_example :
    (is : List Item) × Sorts sample_codec resolver given is outcome.unresolved
    × Perm (all_claims outcome) (map claim_of is)
    × ((i : Item) → Tells i (claim_of i))
reconcile-accounts_example = reconcile-accounts sample_codec resolver given outcome reconciled

reconcile-IsAgreed_example : All (IsAgreed sample_codec) outcome.evidence
reconcile-IsAgreed_example = reconcile-IsAgreed sample_codec resolver given outcome reconciled

reconcile-Disagrees_example :
    (is : List Item) × (resolve_all sample_codec resolver given ≡ ok (is, outcome.unresolved))
    × All (Disagrees sample_codec is) outcome.conflicts
reconcile-Disagrees_example = reconcile-Disagrees sample_codec resolver given outcome reconciled
