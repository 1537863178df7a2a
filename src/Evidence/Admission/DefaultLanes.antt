-- ===== src/Evidence/Admission/DefaultLanes.antt =====
-- The default registry of rintel/evidence_authority/registry.py at the admission boundary.
use rintel_core.Prelude.{
  ◌≡◌, ◌≢◌, ◌⊎◌, inl, inr, refl, String, Bool, true, not, ◌&&◌, some, List, [], ◌∷◌, all, In,
  contains, contains-In, all-In, ok, Option-cases, ◌==◌, string_eq, eq_iff, arith, if◌then◌else◌,
}
use rintel_core.Evidence.Contract.{
  TruthClass, observed, TargetResolution, candidate_set, must, truth_eq, truth_beq_iff,
  resolution_eq, resolution_beq_iff,
}
use rintel_core.Evidence.Registry.{
  LaneDefinition, LaneRegistry, canonical_candidate, require, find_lane,
}
use rintel_core.Evidence.DefaultRegistry.{default_registry, default_lanes}
use rintel_core.Evidence.Envelope.{EvidenceEnvelope, CanonicalStateRef}
use rintel_core.Evidence.Wire.{Codec}
use rintel_core.Evidence.Admission.{CanonicalAdmission, is_runtime_lane, is_canonical_lane, admit}
use rintel_core.Evidence.Admission.Boundary.{admit_sound}

find_lane-In :
    (k : String) (ls : List LaneDefinition) (l : LaneDefinition)
    → find_lane k ls ≡ some l
    → In l ls × (l.lane_id ≡ k)
unfolding find_lane
find_lane-In k [] l h = cc
find_lane-In k (x ∷ xs) l h = ground (arith, find_lane-In k xs l, eq_iff x.lane_id k)

-- A lane that the registry returns is registered, under the name asked for.
pub require-In :
    (r : LaneRegistry) (k : String) (l : LaneDefinition)
    → require r k ≡ ok l
    → In l r.lanes × (l.lane_id ≡ k)
unfolding require
require-In r k l h = elim (Option-cases (find_lane k r.lanes)) [
  | inl e ↦ absurd (ground (arith, e))
  | inr (x, e) ↦ find_lane-In k r.lanes l (ground (arith, e))
]

abbrev pub canonical_lane_ids : List String
canonical_lane_ids = "legacy_builtin" ∷ "clang_provider" ∷ "runtime_trace" ∷ "runtime_data" ∷ []

abbrev lane_policy : LaneDefinition → Bool
lane_policy l =
    if is_canonical_lane l
    then contains l.lane_id canonical_lane_ids
      && (if is_runtime_lane l
          then all (λ (t : TruthClass). t == observed) l.truth_classes_may_propose
            && all (λ (r : TargetResolution). not (r == candidate_set)) l.resolution_capabilities
          else true)
    else true

default_policy : all lane_policy default_lanes ≡ true
default_policy = refl

module _ (l : LaneDefinition) (known : In l default_lanes)
    (canonical : is_canonical_lane l ≡ true) where
  policy_of_lane : lane_policy l ≡ true
  policy_of_lane = all-In lane_policy default_lanes default_policy known

  id_of_lane : In l.lane_id canonical_lane_ids
  id_of_lane = contains-In l.lane_id canonical_lane_ids (ground (arith, policy_of_lane))

  module _ (runtime : is_runtime_lane l ≡ true) where
    runtime_truth : all (λ (t : TruthClass). t == observed) l.truth_classes_may_propose ≡ true
    runtime_truth = ground (arith, policy_of_lane)

    runtime_resolution :
        all (λ (r : TargetResolution). not (r == candidate_set)) l.resolution_capabilities ≡ true
    runtime_resolution = ground (arith, policy_of_lane)

    runtime_claim :
        (t : TruthClass) (r : TargetResolution)
        → In t l.truth_classes_may_propose
        → In r l.resolution_capabilities
        → (t ≡ observed) × (r ≢ candidate_set)
    runtime_claim t r ht hr =
        let a =
          all-In (λ (t : TruthClass). t == observed) l.truth_classes_may_propose runtime_truth ht in
        let b =
          all-In (λ (r : TargetResolution). not (r == candidate_set)) l.resolution_capabilities
            runtime_resolution hr in
        ground (arith, a, b, truth_beq_iff t observed, resolution_beq_iff r candidate_set)

canonical_of :
    (l : LaneDefinition)
    → l.authority_class ≡ canonical_candidate
    → l.canonical_ingestion ≡ true
    → is_canonical_lane l ≡ true
canonical_of l h k = ground arith

runtime_of :
    (l : LaneDefinition)
    → (l.lane_id ≡ "runtime_trace") ⊎ (l.lane_id ≡ "runtime_data")
    → is_runtime_lane l ≡ true
runtime_of l h = ground (arith, eq_iff l.lane_id "runtime_trace", eq_iff l.lane_id "runtime_data")

-- Under the default registry only the two compiler and parser lanes and the two runtime lanes are
-- admitted, so no reference tool, annotation or design. What a runtime lane has admitted is
-- observed, is not a set of candidates, and does not claim to run on every path.
pub default_admission :
    (codec : Codec) (version : String) (e : EvidenceEnvelope) (state : CanonicalStateRef)
    (a : CanonicalAdmission)
    → admit codec (record { registry = default_registry; rule_version = version }) e state ≡ ok a
    → In e.lane_id canonical_lane_ids
      × ((e.lane_id ≡ "runtime_trace") ⊎ (e.lane_id ≡ "runtime_data")
          → (a.candidate.truth_class ≡ observed)
            × (a.candidate.resolution ≢ candidate_set)
            × (a.candidate.execution_modality ≢ must))
default_admission codec version e state a h =
    let (lane, c, m, same) = admit_sound codec _ e state a h in
    let (known, named) = require-In default_registry e.lane_id lane m.registered in
    let canonical = canonical_of lane m.is_candidate_lane m.ingests in
    (
      rw (← named) (id_of_lane lane known canonical),
      λ r.
          let r' = rw (← named) at r in
          let claims =
            runtime_claim lane known canonical (runtime_of lane r') c.truth_class c.resolution
              m.truth_allowed m.resolution_allowed in
          rw same (claims.0, claims.1, m.runtime_not_must r'),
    )
