-- ===== src/Examples/Admitting.antt =====
-- The admission boundary of rintel/evidence_authority/engine.py at one envelope.
use rintel_core.Prelude.{◌≡◌, ◌≢◌, ◌⊎◌, refl, inl, In, ok, arith, fnmatchcase, eq_iff}
use rintel_core.Evidence.Contract.{observed, candidate_set, must}
use rintel_core.Evidence.Registry.{LaneDefinition, require}
use rintel_core.Evidence.DefaultRegistry.{clang_provider}
use rintel_core.Evidence.Envelope.{ClaimPayload}
use rintel_core.Evidence.Candidate.{check_candidate}
use rintel_core.Evidence.Admission.{
  CanonicalAdmission, candidate_of, issue, lane_of, validate_claim, admit,
}
use rintel_core.Evidence.Admission.Boundary.{MayAdmit, admit_sound, admit_complete}
use rintel_core.Evidence.Admission.DefaultLanes.{canonical_lane_ids, default_admission}
use rintel_core.Examples.Samples.{
  sample_codec, sample_engine, sample_state, sample_claim, sample_envelope,
}

abbrev receipt : CanonicalAdmission
receipt =
    issue sample_codec sample_engine sample_envelope sample_state clang_provider
      (candidate_of sample_envelope sample_claim)

admitted : admit sample_codec sample_engine sample_envelope sample_state ≡ ok receipt
unfolding admit lane_of require fnmatchcase validate_claim check_candidate
admitted = refl

admit_sound_example :
    (lane : LaneDefinition) × (c : ClaimPayload) × MayAdmit sample_engine sample_envelope lane c
    × (receipt
        ≡ issue sample_codec sample_engine sample_envelope sample_state lane
            (candidate_of sample_envelope c))
admit_sound_example =
    admit_sound sample_codec sample_engine sample_envelope sample_state receipt admitted

default_admission_example :
    In sample_envelope.lane_id canonical_lane_ids
    × ((sample_envelope.lane_id ≡ "runtime_trace") ⊎ (sample_envelope.lane_id ≡ "runtime_data")
        → (receipt.candidate.truth_class ≡ observed)
          × (receipt.candidate.resolution ≢ candidate_set)
          × (receipt.candidate.execution_modality ≢ must))
default_admission_example =
    default_admission sample_codec sample_engine.rule_version sample_envelope sample_state receipt
      admitted

sample_MayAdmit : MayAdmit sample_engine sample_envelope clang_provider sample_claim
unfolding require fnmatchcase
sample_MayAdmit = record {
  registered = refl;
  producer_known = refl;
  is_candidate_lane = refl;
  ingests = refl;
  has_claim = refl;
  truth_allowed = inl refl;
  resolution_allowed = inl refl;
  runtime_not_must = λ h k.
      ground
        (arith, eq_iff "clang_provider" "runtime_trace", eq_iff "clang_provider" "runtime_data");
}

sample_check :
    check_candidate (candidate_of sample_envelope sample_claim)
    ≡ ok (candidate_of sample_envelope sample_claim)
unfolding check_candidate
sample_check = refl

admit_complete_example : admit sample_codec sample_engine sample_envelope sample_state ≡ ok receipt
admit_complete_example =
    admit_complete sample_codec sample_engine sample_envelope sample_state clang_provider
      sample_claim sample_MayAdmit sample_check
