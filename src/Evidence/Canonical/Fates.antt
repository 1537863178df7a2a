-- ===== src/Evidence/Canonical/Fates.antt =====
-- What the fate of a candidate says of the resolver (rintel/provider_arch/canonical.py).
use rintel_core.Prelude.{
  ◌≡◌, ◌≢◌, true, false, refl, sym, ap, ◌∙◌, subst, inl, inr, String, Option, none, some, arith, ok,
  Result-cases, Bool-cases,
}
use rintel_core.Prelude.Json.{Json, null, boolean, integer, negative, real, text, array, object}
use rintel_core.Evidence.Contract.{exact, resolution_eq, resolution_beq_iff}
use rintel_core.Evidence.Wire.{Codec}
use rintel_core.Evidence.Candidate.{EvidenceCandidate}
use rintel_core.Evidence.Canonical.Identity.{
  subject_role, not_resolvable, identity_denied, IdentityResolver, Item, Fate, accepted, unresolved,
  is_null, is_falsy, is_unresolved, resolve_object, fate_of_parts, fate,
}

null_falsy : (j : Json) → is_null j ≡ true → is_falsy j ≡ true
null_falsy null h = refl
null_falsy (boolean b) h = absurd cc
null_falsy (integer n) h = absurd cc
null_falsy (negative n) h = absurd cc
null_falsy (real r) h = absurd cc
null_falsy (text s) h = absurd cc
null_falsy (array js) h = absurd cc
null_falsy (object fs) h = absurd cc

-- the item of a fate
abbrev accepted_item : Item → Fate → Item
accepted_item d (accepted i) = i
accepted_item d _ = d

abbrev item_of : EvidenceCandidate → String → Json → Item
item_of c s obj = record { candidate = c; subject = s; object_value = obj }

module _ (codec : Codec) (resolver : IdentityResolver) where
  -- The resolver finds the subject of the item and its object, and an object for an exact target.
  pub record IsResolved (i : Item) : Type 0 where
    pub subject_found : resolver i.candidate.subject i.candidate subject_role ≡ ok (some i.subject)
    pub object_found : resolve_object codec resolver i.candidate ≡ ok i.object_value
    pub exact_object :
        i.candidate.object_is_identity ≡ true
        → i.candidate.resolution ≡ exact
        → i.object_value ≢ null

  -- Where the resolver finds a subject and an object, the object is an identity and empty.
  abbrev pub IsUnresolved : EvidenceCandidate → Type 0
  IsUnresolved u =
      (s : String) (obj : Json)
      → resolver u.subject u subject_role ≡ ok (some s)
      → resolve_object codec resolver u ≡ ok obj
      → (u.object_is_identity ≡ true) × (is_falsy obj ≡ true)

  -- an item that was made of these parts
  record Parts (c : EvidenceCandidate) (s : Option String) (obj : Json) (i : Item) : Type 0 where
    same_candidate : i.candidate ≡ c
    found : s ≡ some i.subject
    same_value : obj ≡ i.object_value
    settled : is_unresolved codec resolver c obj ≡ false

  exact_found :
      (c : EvidenceCandidate) (obj : Json)
      → is_unresolved codec resolver c obj ≡ false
      → c.object_is_identity ≡ true
      → c.resolution ≡ exact
      → obj ≡ null
      → ⊥
  exact_found c obj h a b n =
      let no : is_null obj ≡ true = ap is_null n in
      ground (arith, h, a, no, (resolution_beq_iff c.resolution exact).1 b)

  fate_of_parts-accepted :
      (c : EvidenceCandidate) (s : Option String) (obj : Json) (i : Item)
      → fate_of_parts codec resolver c s obj ≡ accepted i
      → Parts c s obj i
  fate_of_parts-accepted c none obj i h = absurd cc
  fate_of_parts-accepted c (some s) obj i h =
      elim (Bool-cases (is_unresolved codec resolver c obj)) [
        | inl q ↦ absurd (ground (arith, rw q at h))
        | inr q ↦
            subst (λ i. Parts c (some s) obj i) (ap (accepted_item (item_of c s obj)) (rw q at h))
              (record { same_candidate = refl; found = refl; same_value = refl; settled = q })
      ]

  pub fate-accepted :
      (c : EvidenceCandidate) (i : Item)
      → fate codec resolver c ≡ accepted i
      → (i.candidate ≡ c) × IsResolved i
  unfolding fate
  fate-accepted c i h = elim (Result-cases (resolver c.subject c subject_role)) [
    | inl (s, p) ↦ elim (Result-cases (resolve_object codec resolver c)) [
      | inl (obj, q) ↦
          let t = fate_of_parts-accepted c s obj i (rw (p, q) at h) in
          let same = t.same_candidate in
          (
            same,
            record {
              subject_found = ap (λ c. resolver c.subject c subject_role) same ∙ p ∙ ap ok t.found;
              object_found = ap (resolve_object codec resolver) same ∙ q ∙ ap ok t.same_value;
              exact_object = λ a b n.
                  exact_found c obj t.settled (ap (λ c. c.object_is_identity) (sym same) ∙ a)
                    (ap (λ c. c.resolution) (sym same) ∙ b) (t.same_value ∙ n);
            },
          )
      | inr (not_resolvable, q) ↦ absurd (ground (arith, rw (p, q) at h))
      | inr (identity_denied, q) ↦ absurd (ground (arith, rw (p, q) at h))
    ]
    | inr (not_resolvable, p) ↦ absurd (ground (arith, rw p at h))
    | inr (identity_denied, p) ↦ absurd (ground (arith, rw p at h))
  ]

  fate_of_parts-unresolved :
      (c : EvidenceCandidate) (s : String) (obj : Json)
      → fate_of_parts codec resolver c (some s) obj ≡ unresolved
      → is_unresolved codec resolver c obj ≡ true
  fate_of_parts-unresolved c s obj h = elim (Bool-cases (is_unresolved codec resolver c obj)) [
    | inl q ↦ q
    | inr q ↦ absurd (ground (arith, rw q at h))
  ]

  pub fate-IsUnresolved :
      (c : EvidenceCandidate) → fate codec resolver c ≡ unresolved → IsUnresolved c
  unfolding fate
  fate-IsUnresolved c h s obj p q =
      let t = fate_of_parts-unresolved c s obj (rw (p, q) at h) in
      (ground (arith, t), ground (arith, t, null_falsy obj))
