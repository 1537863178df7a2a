-- ===== src/Examples/Publishing.antt =====
-- rintel/provider_arch/publication.py at one store, one revision and one batch.
use rintel_core.Prelude.{
  ◌≡◌, ◌≢◌, inl, refl, Option, none, some, List, [], ◌∷◌, map, All, Result, ok, err, arith, eq_iff,
  string_eq,
}
use rintel_core.Prelude.Json.{end}
use rintel_core.Prelude.Dict.{lookup, insert}
use rintel_core.Evidence.Contract.{observed, exact, partial, must}
use rintel_core.Evidence.Batch.{SupportReceipt, CanonicalPublicationBatch}
use rintel_core.Evidence.Publication.{
  Stage, write_bundle, write_pointer, Payload, PublishedReceipt, Store, PublicationError, os_error,
  publish_receipts, payload_of, publish, support_receipts,
}
use rintel_core.Evidence.Publication.Atomic.{
  IsConsistent, publish-ok, publish-err, publish_keeps, publish-IsConsistent,
}
use rintel_core.Evidence.Publication.Orphans.{
  MayPublish, publish_complete, pointer_failure_orphans, support_receipts-publish,
}
use rintel_core.Examples.Samples.{sample_codec, sample_state}

abbrev sample_receipt : SupportReceipt
sample_receipt = record {
  canonical_fact_identity = "fact-1";
  source_admission = "admission-1";
  provider = "clang";
  provider_version = "1";
  provider_fact_id = "p-1";
  truth_class = observed;
  target_resolution = exact;
  coverage = partial;
  execution_modality = must;
  scope = "a.c" ∷ [];
  build_context_id = "b";
  provider_config_digest = "c";
  provenance = end;
  source_span = none;
  registry_version = "1";
  rule_version = "1";
}

abbrev sample_batch : CanonicalPublicationBatch
sample_batch = record {
  provider = "clang";
  provider_version = "1";
  input_revision = "in";
  coverage = end;
  warnings = [];
  reconciliation = record { evidence = []; conflicts = []; unresolved = [] };
  registry_version = "1";
  rule_version = "1";
  canonical_state_before = sample_state;
  canonical_state_after = sample_state;
  admission_digests = [];
  support_receipts = sample_receipt ∷ [];
}

abbrev read_back : Payload → Payload
read_back p = p

abbrev old : Payload
old = payload_of sample_codec "r1" sample_batch

abbrev new : Payload
new = payload_of sample_codec "r2" sample_batch

abbrev store : Store
store = record {
  registry_version = "1";
  rule_version = "1";
  revisions = ("r1", old) ∷ [];
  staging = [];
  current = some "r1";
}

abbrev run : Option Stage → Result PublicationError Payload × Store
run fault = publish sample_codec read_back fault store "r2" sample_batch

published : (run none).0 ≡ ok new
unfolding publish payload_of publish_receipts lookup insert
published = refl

stopped : (run (some write_bundle)).0 ≡ err (os_error write_bundle)
unfolding publish payload_of publish_receipts lookup insert
stopped = refl

publish-ok_example :
    (new ≡ new)
    × ((run none).1.current ≡ some "r2")
    × (lookup "r2" (run none).1.revisions ≡ some new)
    × (lookup "r2" store.revisions ≡ none)
    × ((run none).1.staging ≡ store.staging)
    × (sample_batch.registry_version ≡ store.registry_version)
    × (sample_batch.rule_version ≡ store.rule_version)
publish-ok_example = publish-ok sample_codec read_back none store "r2" sample_batch new published

publish-err_example :
    ((run (some write_bundle)).1.current ≡ some "r1") × ((run (some write_bundle)).1.staging ≡ [])
publish-err_example =
    publish-err sample_codec read_back (some write_bundle) store "r2" sample_batch
      (os_error write_bundle) stopped

publish_keeps_example : lookup "r1" (run none).1.revisions ≡ some old
unfolding lookup
publish_keeps_example =
    publish_keeps sample_codec read_back none store "r2" sample_batch "r1" old refl

store-IsConsistent : IsConsistent store
unfolding lookup
store-IsConsistent r h = (old, ground (arith, h, eq_iff "r1" r))

publish-IsConsistent_example : IsConsistent (run (some write_pointer)).1
publish-IsConsistent_example =
    publish-IsConsistent sample_codec read_back (some write_pointer) store "r2" sample_batch
      store-IsConsistent

may : MayPublish sample_codec read_back store "r2" sample_batch
unfolding payload_of lookup
may = record {
  not_empty = λ h. ground (arith, h, eq_iff "r2" "");
  no_slash = refl;
  not_here = λ h. ground (arith, h, eq_iff "r2" ".");
  not_above = λ h. ground (arith, h, eq_iff "r2" "..");
  same_registry = refl;
  same_rule = refl;
  not_published = refl;
  reads_back = refl;
}

publish_complete_example : (run none).0 ≡ ok new
publish_complete_example = publish_complete sample_codec read_back store "r2" sample_batch may

pointer_failure_orphans_example :
    ((run (some write_pointer)).0 ≡ err (os_error write_pointer))
    × (lookup "r2" (run (some write_pointer)).1.revisions ≡ some new)
    × ((run (some write_pointer)).1.current ≡ some "r1")
    × ((fault : Option Stage) (later : CanonicalPublicationBatch) (p : Payload)
        → (publish sample_codec read_back fault (run (some write_pointer)).1 "r2" later).0 ≢ ok p)
pointer_failure_orphans_example =
    pointer_failure_orphans sample_codec read_back store "r2" sample_batch may write_pointer
      (inl refl)

support_receipts-publish_example :
    (rs : List PublishedReceipt) × (support_receipts (run none).1 "r2" "fact-1" ≡ ok rs)
    × (map (λ (r : PublishedReceipt). r.receipt) rs ≡ sample_receipt ∷ [])
    × All (λ (r : PublishedReceipt). r.canonical_revision ≡ "r2") rs
support_receipts-publish_example =
    support_receipts-publish sample_codec read_back none store "r2" "fact-1" sample_batch new
      published
