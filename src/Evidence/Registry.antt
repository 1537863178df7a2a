-- ===== src/Evidence/Registry.antt =====
-- The lanes that Rintel registers, with the authority of each
-- (rintel/evidence_authority/registry.py, and `AuthorityClass` of its model.py).
use rintel_core.Prelude.{
  ◌≡◌, ◌↔◌, String, Bool, true, false, ◌||◌, List, [], ◌∷◌, any, arith, Eq, ◌==◌, string_eq,
  if◌then◌else◌, Option, none, some, Result, ok, err, is_blank,
}
use rintel_core.Evidence.Contract.{TruthClass, TargetResolution}

pub data AuthorityClass : Type 0 where
  canonical_candidate reference_evidence design_annotation : AuthorityClass

abbrev class_beq : AuthorityClass → AuthorityClass → Bool
class_beq canonical_candidate canonical_candidate = true
class_beq reference_evidence reference_evidence = true
class_beq design_annotation design_annotation = true
class_beq _ _ = false

pub class_beq_iff : (a b : AuthorityClass) → (class_beq a b ≡ true) ↔ (a ≡ b)
class_beq_iff a b = ground arith

instance abbrev pub class_eq : Eq AuthorityClass
class_eq = record { same = class_beq; same_iff = class_beq_iff }

pub record LaneDefinition : Type 0 where
  pub lane_id : String
  pub producer : String
  pub status : String
  pub supported_languages : List String
  pub supported_scope : List String
  pub authority_class : AuthorityClass
  pub truth_classes_may_propose : List TruthClass
  pub resolution_capabilities : List TargetResolution
  pub coverage_semantics : String
  pub canonical_ingestion : Bool
  pub allowed_uses : List String
  pub forbidden_uses : List String
  pub limitations : List String

pub record LaneRegistry : Type 0 where
  pub version : String
  pub lanes : List LaneDefinition

-- What the registry and the engine raise.
pub data AuthorityError : Type 0 where
  version_required duplicate_lane unknown_lane : AuthorityError
  producer_not_registered lane_not_canonical claim_required : AuthorityError
  truth_class_forbidden resolution_forbidden runtime_must_forbidden : AuthorityError
  candidate_rejected : AuthorityError

abbrev has_lane : String → List LaneDefinition → Bool
has_lane k = any (λ (l : LaneDefinition). l.lane_id == k)

abbrev has_duplicate : List LaneDefinition → Bool
has_duplicate [] = false
has_duplicate (l ∷ ls) = has_lane l.lane_id ls || has_duplicate ls

-- `LaneRegistry.__init__`
unfoldable pub new_registry : String → List LaneDefinition → Result AuthorityError LaneRegistry
new_registry version lanes =
    if is_blank version
    then err version_required
    else if has_duplicate lanes
    then err duplicate_lane
    else ok (record { version = version; lanes = lanes })

unfoldable pub find_lane : String → List LaneDefinition → Option LaneDefinition
find_lane k [] = none
find_lane k (l ∷ ls) = if l.lane_id == k then some l else find_lane k ls

abbrev found_lane : Option LaneDefinition → Result AuthorityError LaneDefinition
found_lane none = err unknown_lane
found_lane (some l) = ok l

unfoldable pub require : LaneRegistry → String → Result AuthorityError LaneDefinition
unfolding find_lane
require r k = found_lane (find_lane k r.lanes)
