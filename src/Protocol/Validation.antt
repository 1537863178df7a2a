-- ===== src/Protocol/Validation.antt =====
-- rintel/provider_protocol/validation.py: the tests on a decoded message. The parts of an error's
-- text that name a field are left out. A key stands once in a dictionary; of `Fields` the first
-- counts.
pub mod Facts
pub mod Messages
use rintel_core.Prelude.{
  ℕ, String, Bool, true, false, ◌&&◌, ◌||◌, not, Option, none, some, List, [], ◌∷◌, ◌++◌, map, any,
  all, length, contains, leb, Result, ok, err, raise_if, ◌>>◌, ◌>>=◌, ◌==◌, nat_eq, string_eq,
  if◌then◌else◌,
}
use rintel_core.Prelude.Dict.{lookup}
use rintel_core.Prelude.Json.{
  Json, null, boolean, integer, negative, real, text, array, object, Items, nil, cons, Fields, end,
  field, item_list, keys, get_field, has_key,
}

-- the part of a message that a field is unknown or missing in
pub data Part : Type 0 where
  of_message of_entity of_fact of_span of_claim : Part

-- `type_error` is the `TypeError` of a test `in` on a list or a dictionary
pub data ProtocolError : Type 0 where
  not_an_object authority_field unknown_type unexpected_type unsupported_version : ProtocolError
  unknown_field missing_field not_an_object_in : Part → ProtocolError
  entity_not_text entity_empty not_one_variant not_an_array none_not_true unknown_variant :
      ProtocolError
  invalid_basis invalid_modality type_error invalid_sequence invalid_facts : ProtocolError

abbrev pub forbidden_authority_fields : List String
forbidden_authority_fields =
    "canonical_id" ∷ "truth_class" ∷ "resolution" ∷ "delete_canonical_fact" ∷ "publish_revision"
    ∷ "canonical_revision" ∷ "canonical_truth" ∷ []

abbrev pub protocol_version : String
protocol_version = "rpp/1"

-- `_MESSAGE_FIELDS`; the first two fields are common to all
abbrev common : List String → List String
common ks = "protocol_version" ∷ "type" ∷ ks

abbrev pub message_fields : List (String × List String)
message_fields =
    ("hello", common ("host" ∷ "authority" ∷ []))
    ∷ ("hello_ack", common ("process_id" ∷ "advertisement" ∷ []))
    ∷ ("analyze", common ("contract" ∷ []))
    ∷ ("analysis_started", common ("analysis_id" ∷ []))
    ∷ ("fact_batch", common ("analysis_id" ∷ "sequence" ∷ "facts" ∷ []))
    ∷ (
      "analysis_complete",
      common (
          "analysis_id" ∷ "status" ∷ "batch_count" ∷ "fact_count" ∷ "coverage"
          ∷ "incremental_result" ∷ []),
    )
    ∷ ("cancel", common ("analysis_id" ∷ []))
    ∷ ("cancelled", common ("analysis_id" ∷ []))
    ∷ ("shutdown", common [])
    ∷ ("shutdown_ack", common [])
    ∷ ("protocol_error", common ("code" ∷ "message" ∷ []))
    ∷ []

abbrev pub fact_fields : List String
fact_fields =
    "provider_fact_id" ∷ "kind" ∷ "subject" ∷ "predicate" ∷ "object" ∷ "source_span" ∷ "claim" ∷ []

abbrev pub entity_fields : List String
entity_fields = "local_id" ∷ "kind" ∷ "name" ∷ "qualified_name" ∷ "path" ∷ "language" ∷ []

abbrev pub span_fields : List String
span_fields =
    "file" ∷ "start_line" ∷ "start_column" ∷ "end_line" ∷ "end_column" ∷ "span_kind" ∷ "precision"
    ∷ []

abbrev pub claim_fields : List String
claim_fields = "observation_basis" ∷ "execution_modality" ∷ []

abbrev pub is_forbidden : String → Bool
is_forbidden k = contains k forbidden_authority_fields

-- `_authority_scan`: the keys of a dictionary first, then its values in their order
unfoldable mutual
  pub authority_scan : Json → Result ProtocolError (Unit {0})
  authority_scan (object fs) =
      raise_if (any is_forbidden (keys fs)) authority_field >> scan_values fs
  authority_scan (array js) = scan_items js
  authority_scan null = ok tt
  authority_scan (boolean b) = ok tt
  authority_scan (integer n) = ok tt
  authority_scan (negative n) = ok tt
  authority_scan (real s) = ok tt
  authority_scan (text s) = ok tt

  pub scan_items : Items → Result ProtocolError (Unit {0})
  scan_items nil = ok tt
  scan_items (cons j js) = authority_scan j >> scan_items js

  pub scan_values : Fields → Result ProtocolError (Unit {0})
  scan_values end = ok tt
  scan_values (field k v fs) = authority_scan v >> scan_values fs

unfoldable pub exact_fields : Fields → List String → Part → Result ProtocolError (Unit {0})
exact_fields fs allowed part =
    raise_if (not (all (λ k. contains k allowed) (keys fs))) (unknown_field part)

unfoldable pub required : Fields → List String → Part → Result ProtocolError (Unit {0})
required fs ks part = raise_if (not (all (λ k. contains k (keys fs)) ks)) (missing_field part)

-- `isinstance(value, Mapping)`, and the value as one
abbrev pub mapping : Option Json → ProtocolError → Result ProtocolError Fields
mapping (some (object fs)) e = ok fs
mapping _ e = err e

-- a dictionary with exactly these fields
unfoldable pub shaped :
    Option Json → List String → Part → ProtocolError → Result ProtocolError Fields
shaped value ks part e = do
  fs ← mapping value e
  exact_fields fs ks part
  required fs ks part
  ok fs

abbrev pub is_text : Option Json → Bool
is_text (some (text s)) = true
is_text _ = false

-- equality with a text, of what a key holds
abbrev pub is_the_text : String → Option Json → Bool
is_the_text s (some (text r)) = s == r
is_the_text s _ = false

-- `value in {...}`, a set of texts
abbrev pub in_texts : List String → Option Json → ProtocolError → Result ProtocolError (Unit {0})
in_texts ss (some (text s)) e = raise_if (not (contains s ss)) e
in_texts ss (some (array js)) e = err type_error
in_texts ss (some (object fs)) e = err type_error
in_texts ss _ e = err e

unfoldable pub validate_entity : Option Json → Result ProtocolError (Unit {0})
validate_entity value = do
  fs ← shaped value entity_fields of_entity (not_an_object_in of_entity)
  raise_if (not (all (λ k. is_text (get_field k fs)) entity_fields)) entity_not_text
  raise_if
      (is_the_text "" (get_field "local_id" fs)
        || is_the_text "" (get_field "kind" fs)
        || is_the_text "" (get_field "name" fs)
        || is_the_text "" (get_field "qualified_name" fs))
      entity_empty

unfoldable pub validate_entities : List Json → Result ProtocolError (Unit {0})
validate_entities [] = ok tt
validate_entities (j ∷ js) = validate_entity (some j) >> validate_entities js

-- the branches on `variant`
abbrev pub validate_variant : String → Json → Result ProtocolError (Unit {0})
validate_variant k v =
    if k == "entity"
    then validate_entity (some v)
    else if k == "candidates"
    then elim v [ array js ↦ validate_entities (item_list js) | _ ↦ err not_an_array ]
    else if k == "none"
    then elim v [ boolean b ↦ raise_if (not b) none_not_true | _ ↦ err none_not_true ]
    else raise_if (not (k == "literal")) unknown_variant

unfoldable pub validate_object : Option Json → Result ProtocolError (Unit {0})
validate_object (some (object (field k v end))) = validate_variant k v
validate_object _ = err not_one_variant

unfoldable pub validate_fact : Json → Result ProtocolError (Unit {0})
validate_fact value = do
  fs ← shaped (some value) fact_fields of_fact (not_an_object_in of_fact)
  validate_entity (get_field "subject" fs)
  validate_object (get_field "object" fs)
  span ← shaped (get_field "source_span" fs) span_fields of_span (not_an_object_in of_span)
  claim ← shaped (get_field "claim" fs) claim_fields of_claim (not_an_object_in of_claim)
  in_texts ("DIRECT" ∷ "DERIVED" ∷ "HEURISTIC" ∷ []) (get_field "observation_basis" claim)
      invalid_basis
  in_texts ("MUST" ∷ "MAY" ∷ "UNKNOWN" ∷ []) (get_field "execution_modality" claim) invalid_modality

unfoldable pub validate_facts : List Json → Result ProtocolError (Unit {0})
validate_facts [] = ok tt
validate_facts (j ∷ js) = validate_fact j >> validate_facts js

-- `isinstance(value, int)` and no less than 0; a Boolean is an `int`
abbrev pub is_sequence : Option Json → Bool
is_sequence (some (integer n)) = true
is_sequence (some (boolean b)) = true
is_sequence _ = false

abbrev pub fact_list : Option Json → Result ProtocolError (List Json)
fact_list (some (array js)) = do
  raise_if (not (leb 1 (length (item_list js)) && leb (length (item_list js)) 1000)) invalid_facts
  ok (item_list js)
fact_list _ = err invalid_facts

-- the last branch of `validate_message`
unfoldable pub validate_batch : Fields → Result ProtocolError (Unit {0})
validate_batch fs = do
  raise_if (not (is_sequence (get_field "sequence" fs))) invalid_sequence
  facts ← fact_list (get_field "facts" fs)
  validate_facts facts

-- the type of a message with the fields that it may have
abbrev pub allowed_for : String → Result ProtocolError (String × List String)
allowed_for k = elim (lookup k message_fields) [ none ↦ err unknown_type | some ks ↦ ok (k, ks) ]

abbrev pub message_type : Option Json → Result ProtocolError (String × List String)
message_type (some (text k)) = allowed_for k
message_type _ = err unknown_type

abbrev pub is_expected : Option String → String → Bool
is_expected none k = true
is_expected (some e) k = k == e

unfoldable pub validate_message : Json → Option String → Result ProtocolError (Unit {0})
validate_message message expected_type = do
  fs ← mapping (some message) not_an_object
  authority_scan (object fs)
  (kind, allowed) ← message_type (get_field "type" fs)
  raise_if (not (is_expected expected_type kind)) unexpected_type
  raise_if (not (is_the_text protocol_version (get_field "protocol_version" fs)))
      unsupported_version
  exact_fields fs allowed of_message
  required fs allowed of_message
  if kind == "fact_batch" then validate_batch fs else ok tt
