-- ===== src/Examples/Receiving.antt =====
-- rintel/provider_protocol at one message and one staging area.
use rintel_core.Prelude.{
  ◌≡◌, refl, ℕ, Option, none, some, List, [], ◌∷◌, ◌≤◌, All, length, map, ok, err, ◌==◌, nat_eq,
  if◌then◌else◌,
}
use rintel_core.Prelude.Dict.{lookup, insert}
use rintel_core.Prelude.Json.{
  Json, integer, text, array, object, Items, nil, cons, Fields, end, field, get_field, item_list,
  keys, null,
}
use rintel_core.Protocol.Validation.{
  authority_scan, exact_fields, required, shaped, validate_entity, validate_object, validate_fact,
  validate_facts, validate_batch, validate_message,
}
use rintel_core.Protocol.Validation.Messages.{IsAccepted, validate_message-IsAccepted}
use rintel_core.Protocol.Validation.Facts.{IsFact, validate_message-IsFact}
use rintel_core.Protocol.Staging.{
  StagingArea, invalid_json, start, write_json, append_batch, render, facts,
}
use rintel_core.Protocol.Staging.RoundTrip.{
  Batches, all_rows, AreConsecutive, append_batches, append_batches-facts, facts_separator,
}

abbrev entity : Fields
entity = field "local_id" (text "f") (
    field "kind" (text "function") (
      field "name" (text "f") (
        field "qualified_name" (text "f")
          (field "path" (text "a.c") (field "language" (text "c") end)))))

abbrev span : Fields
span = field "file" (text "a.c") (
    field "start_line" (integer 1) (
      field "start_column" (integer 1) (
        field "end_line" (integer 1) (
          field "end_column" (integer 2)
            (field "span_kind" (text "CALL") (field "precision" (text "EXACT") end))))))

abbrev claim : Fields
claim = field "observation_basis" (text "DIRECT") (field "execution_modality" (text "MAY") end)

abbrev fact : Json
fact = object (
    field "provider_fact_id" (text "1") (
      field "kind" (text "call") (
        field "subject" (object entity) (
          field "predicate" (text "CALLS") (
            field "object" (object (field "entity" (object entity) end))
              (field "source_span" (object span) (field "claim" (object claim) end)))))))

abbrev batch : Fields
batch = field "protocol_version" (text "rpp/1") (
    field "type" (text "fact_batch") (
      field "analysis_id" (text "a")
        (field "sequence" (integer 0) (field "facts" (array (cons fact nil)) end))))

passes : validate_message (object batch) (some "fact_batch") ≡ ok tt
unfolding validate_message authority_scan exact_fields required shaped validate_entity
    validate_object validate_fact validate_facts validate_batch lookup keys get_field item_list
passes = refl

validate_message-IsAccepted_example : IsAccepted (object batch) (some "fact_batch")
validate_message-IsAccepted_example =
    validate_message-IsAccepted (object batch) (some "fact_batch") passes

named : get_field "type" batch ≡ some (text "fact_batch")
unfolding get_field
named = refl

validate_message-IsFact_example :
    (js : Items) × (get_field "facts" batch ≡ some (array js))
    × (1 ≤ length (item_list js))
    × (length (item_list js) ≤ 1000)
    × All IsFact (item_list js)
validate_message-IsFact_example =
    validate_message-IsFact (object batch) (some "fact_batch") passes batch refl named

-- an encoding of texts, null and all else
abbrev dumps : Json → List ℕ
dumps null = b'n' ∷ []
dumps (text s) = b'"' ∷ 8232 ∷ b'"' ∷ []
dumps _ = b'0' ∷ []

abbrev loads : List ℕ → Option Json
loads (c ∷ []) = if c == b'n' then some null else if c == b'0' then some (integer 0) else none
loads _ = none

abbrev reread : Json → Json
reread j = j

abbrev fresh : StagingArea
fresh = record { analysis_id = "a"; batch_count = 0; fact_count = 0; active = none; failed = none }

abbrev opened : List ℕ → StagingArea
opened t = record fresh {
  active = some (record { documents = ("manifest.json", null) ∷ []; facts_text = some t });
}

started : start null fresh ≡ ok (opened [])
unfolding start write_json insert
started = refl

abbrev batches : Batches
batches = (0, null ∷ integer 0 ∷ []) ∷ (1, null ∷ []) ∷ []

abbrev filled : StagingArea
filled = record (opened (b'n' ∷ 10 ∷ b'0' ∷ 10 ∷ b'n' ∷ 10 ∷ [])) {
  batch_count = 2;
  fact_count = 3;
}

staged : append_batches dumps loads reread batches (opened []) ≡ ok filled
unfolding append_batches append_batch render
staged = refl

append_batches-facts_example :
    AreConsecutive 0 batches
    × (filled.batch_count ≡ length batches)
    × (filled.fact_count ≡ length (all_rows batches))
    × (facts dumps loads filled ≡ ok (map reread (all_rows batches)))
append_batches-facts_example =
    append_batches-facts dumps loads reread null batches fresh (opened []) filled refl refl started
      staged (((refl, tt), refl), (((refl, tt), refl), (((refl, tt), refl), tt)))

abbrev broken : StagingArea
broken = record (opened (b'"' ∷ 8232 ∷ b'"' ∷ 10 ∷ [])) { batch_count = 1; fact_count = 1 }

separator_staged : append_batch dumps loads 0 (text "s" ∷ []) (opened []) ≡ ok broken
unfolding append_batch render
separator_staged = refl

facts_separator_example : facts dumps loads broken ≡ err invalid_json
facts_separator_example =
    facts_separator dumps loads reread null (text "s") (b'"' ∷ []) (b'"' ∷ []) fresh (opened [])
      broken refl refl started separator_staged refl (refl, tt) refl
