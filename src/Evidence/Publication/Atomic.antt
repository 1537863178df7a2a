-- ===== src/Evidence/Publication/Atomic.antt =====
-- What a publication leaves behind, in each of its outcomes.
use rintel_core.Prelude.{
  ◌≡◌, inl, inr, String, Option, none, some, Result, ok, err, arith, string_eq, eq_iff,
  Result-cases, sym, ◌∙◌, subst,
}
use rintel_core.Prelude.Dict.{lookup, lookup-insert, lookup-insert_self}
use rintel_core.Evidence.Wire.{Codec}
use rintel_core.Evidence.Batch.{CanonicalPublicationBatch}
use rintel_core.Evidence.Publication.{Stage, Payload, Store, PublicationError, payload_of, publish}

-- The pointer names a revision that is there.
abbrev pub IsConsistent : Store → Type 0
IsConsistent st =
    (r : String) → st.current ≡ some r → (p : Payload) × (lookup r st.revisions ≡ some p)

module _ (codec : Codec) (read_back : Payload → Payload) (fault : Option Stage) (st : Store)
    (revision : String) (b : CanonicalPublicationBatch) where
  abbrev after : Store
  after = (publish codec read_back fault st revision b).1

  abbrev reply : Result PublicationError Payload
  reply = (publish codec read_back fault st revision b).0

  -- A publication that returns has made its revision the current one, with the payload that it
  -- returns, and the revision was not there before.
  pub publish-ok :
      (p : Payload)
      → reply ≡ ok p
      → (p ≡ payload_of codec revision b)
        × (after.current ≡ some revision)
        × (lookup revision after.revisions ≡ some p)
        × (lookup revision st.revisions ≡ none)
        × (after.staging ≡ st.staging)
        × (b.registry_version ≡ st.registry_version)
        × (b.rule_version ≡ st.rule_version)
  unfolding publish
  publish-ok p h = ground (
    arith,
    lookup-insert_self revision (payload_of codec revision b) st.revisions,
    eq_iff b.registry_version st.registry_version,
    eq_iff b.rule_version st.rule_version,
  )

  -- A publication that raises leaves the pointer and the staging area as they were.
  pub publish-err :
      (e : PublicationError)
      → reply ≡ err e
      → (after.current ≡ st.current) × (after.staging ≡ st.staging)
  unfolding publish
  publish-err e h = ground arith

  -- No publication, whether it returns or raises, changes a revision that is there.
  pub publish_keeps :
      (r : String) (p : Payload)
      → lookup r st.revisions ≡ some p
      → lookup r after.revisions ≡ some p
  unfolding publish
  publish_keeps r p h = ground (
    arith,
    lookup-insert revision r (payload_of codec revision b) st.revisions,
    eq_iff revision r,
  )

  -- The pointer names a revision that is there, whatever stage fails.
  pub publish-IsConsistent : IsConsistent st → IsConsistent after
  publish-IsConsistent c r h = elim (Result-cases reply) [
    | inl (p, e) ↦
        let q = publish-ok p e in
        let same : revision ≡ r = cc (q.1, h) in
        (p, subst (λ (x : String). lookup x after.revisions ≡ some p) same q.2)
    | inr (x, e) ↦
        let (p, there) = c r (sym (publish-err x e).0 ∙ h) in (p, publish_keeps r p there)
  ]
