-- ===== src/Evidence/Publication/Orphans.antt =====
-- A publication whose pointer cannot be written, and the receipts that a published revision gives.
use rintel_core.Prelude.{
  ℕ, suc, ◌≡◌, ◌≢◌, ◌⊎◌, inl, inr, refl, ap, All, sym, ◌∙◌, String, false, Option, none, some, List,
  [], ◌∷◌, map, ok, err, arith, ◌==◌, string_eq, eq_iff, if◌then◌else◌, Bool-cases, ◌||◌,
}
use rintel_core.Prelude.Dict.{lookup, lookup-insert_self}
use rintel_core.Evidence.Wire.{Codec}
use rintel_core.Evidence.Batch.{SupportReceipt, CanonicalPublicationBatch}
use rintel_core.Evidence.Publication.{
  Stage, write_pointer, move_pointer, Payload, PublishedReceipt, Store, os_error, has_slash,
  payload_of, publish, publish_receipts, matching, support_receipts,
}
use rintel_core.Evidence.Publication.Atomic.{publish-ok}

-- What a caller has to bring for a publication.
pub record MayPublish (codec : Codec) (read_back : Payload → Payload) (st : Store)
    (revision : String) (b : CanonicalPublicationBatch) : Type 0 where
  pub not_empty : revision ≢ ""
  pub no_slash : has_slash revision ≡ false
  pub not_here : revision ≢ "."
  pub not_above : revision ≢ ".."
  pub same_registry : b.registry_version ≡ st.registry_version
  pub same_rule : b.rule_version ≡ st.rule_version
  pub not_published : lookup revision st.revisions ≡ none
  pub reads_back : (read_back (payload_of codec revision b)).revision ≡ revision

module _ (codec : Codec) (read_back : Payload → Payload) (st : Store) (revision : String)
    (b : CanonicalPublicationBatch) (may : MayPublish codec read_back st revision b) where
  -- A publication that the caller may make and no stage of which fails returns.
  pub publish_complete :
      (publish codec read_back none st revision b).0 ≡ ok (payload_of codec revision b)
  unfolding publish
  publish_complete = ground (
    arith,
    eq_iff revision "",
    eq_iff revision ".",
    eq_iff revision "..",
    eq_iff b.registry_version st.registry_version,
    eq_iff b.rule_version st.rule_version,
    eq_iff (read_back (payload_of codec revision b)).revision revision,
    may.not_empty,
    may.no_slash,
    may.not_here,
    may.not_above,
    may.same_registry,
    may.same_rule,
    may.not_published,
    may.reads_back,
  )

  -- what stands in the store behind a publication in which the stage `s` fails
  abbrev pub behind : Stage → Store
  behind s = (publish codec read_back (some s) st revision b).1

  orphan :
      (s : Stage)
      → (s ≡ write_pointer) ⊎ (s ≡ move_pointer)
      → ((publish codec read_back (some s) st revision b).0 ≡ err (os_error s))
        × (lookup revision (behind s).revisions ≡ some (payload_of codec revision b))
        × ((behind s).current ≡ st.current)
  unfolding publish
  orphan s h = ground (
    arith,
    eq_iff revision "",
    eq_iff revision ".",
    eq_iff revision "..",
    eq_iff b.registry_version st.registry_version,
    eq_iff b.rule_version st.rule_version,
    eq_iff (read_back (payload_of codec revision b)).revision revision,
    lookup-insert_self revision (payload_of codec revision b) st.revisions,
    may.not_empty,
    may.no_slash,
    may.not_here,
    may.not_above,
    may.same_registry,
    may.same_rule,
    may.not_published,
    may.reads_back,
  )

  -- Where the pointer cannot be written, the publication raises, and yet its revision stands in the
  -- store while the old one is current; and no later publication of that revision returns.
  pub pointer_failure_orphans :
      (s : Stage)
      → (s ≡ write_pointer) ⊎ (s ≡ move_pointer)
      → ((publish codec read_back (some s) st revision b).0 ≡ err (os_error s))
        × (lookup revision (behind s).revisions ≡ some (payload_of codec revision b))
        × ((behind s).current ≡ st.current)
        × ((fault : Option Stage) (later : CanonicalPublicationBatch) (p : Payload)
            → (publish codec read_back fault (behind s) revision later).0 ≢ ok p)
  pointer_failure_orphans s h =
      let (raised, there, old) = orphan s h in
      (
        raised,
        there,
        old,
        λ fault later p e.
            none-ne-some
              (sym (publish-ok codec read_back fault (behind s) revision later p e).3 ∙ there),
      )
    where
      none-ne-some : ◌≡◌ {A = Option Payload} none (some (payload_of codec revision b)) → ⊥
      none-ne-some q = cc

-- the receipts of a fact among those of a batch
abbrev pub receipts_of : String → List SupportReceipt → List SupportReceipt
receipts_of k [] = []
receipts_of k (r ∷ rs) =
    let rest = receipts_of k rs in if r.canonical_fact_identity == k then r ∷ rest else rest

module _ (codec : Codec) where
  matching-publish_receipts :
      (revision k : String) (n : ℕ) (rs : List SupportReceipt)
      → map
          (λ (r : PublishedReceipt). r.receipt)
          (matching k (publish_receipts codec revision n rs))
        ≡ receipts_of k rs
  unfolding publish_receipts
  matching-publish_receipts revision k n [] = refl
  matching-publish_receipts revision k n (r ∷ rs) =
      elim (Bool-cases (r.canonical_fact_identity == k)) [
        | inl q ↦ rw q (ap (λ l. r ∷ l) (matching-publish_receipts revision k (suc n) rs))
        | inr q ↦ rw q (matching-publish_receipts revision k (suc n) rs)
      ]

  publish_receipts-revision :
      (revision k : String) (n : ℕ) (rs : List SupportReceipt)
      → All
          (λ (r : PublishedReceipt). r.canonical_revision ≡ revision)
          (matching k (publish_receipts codec revision n rs))
  unfolding publish_receipts
  publish_receipts-revision revision k n [] = tt
  publish_receipts-revision revision k n (r ∷ rs) =
      elim (Bool-cases (r.canonical_fact_identity == k)) [
        | inl q ↦ rw q (refl, publish_receipts-revision revision k (suc n) rs)
        | inr q ↦ rw q (publish_receipts-revision revision k (suc n) rs)
      ]

  module _ (read_back : Payload → Payload) (fault : Option Stage) (st : Store) (revision k : String)
      (b : CanonicalPublicationBatch) (p : Payload)
      (h : (publish codec read_back fault st revision b).0 ≡ ok p) where
    abbrev after : Store
    after = (publish codec read_back fault st revision b).1

    published_name :
        (revision == "" || revision == "." || revision == ".." || has_slash revision) ≡ false
    unfolding publish
    published_name = ground (arith, h)

    found_receipts :
        support_receipts after revision k ≡ ok (matching k p.canonical_support_receipts)
    unfolding support_receipts
    found_receipts =
        ground (arith, published_name, (publish-ok codec read_back fault st revision b p h).2)

    -- The receipts of a fact that a publication has stored are those of its batch, in their order,
    -- each bound to the revision.
    pub support_receipts-publish :
        (rs : List PublishedReceipt) × (support_receipts after revision k ≡ ok rs)
        × (map (λ (r : PublishedReceipt). r.receipt) rs ≡ receipts_of k b.support_receipts)
        × All (λ (r : PublishedReceipt). r.canonical_revision ≡ revision) rs
    unfolding payload_of
    support_receipts-publish =
        let same = (publish-ok codec read_back fault st revision b p h).0 in
        (
          matching k p.canonical_support_receipts,
          found_receipts,
          rw same (matching-publish_receipts revision k 0 b.support_receipts),
          rw same (publish_receipts-revision revision k 0 b.support_receipts),
        )
