-- ===== src/Protocol/Validation/Facts.antt =====
-- What the facts of an accepted batch are.
use rintel_core.Prelude.{
  ◌≡◌, ◌≤◌, refl, inl, inr, String, false, ◌&&◌, Option, none, some, List, [], ◌∷◌, All, In, length,
  leb, contains-In, Result, ok, err, ◌>>◌, Result-cases, Bool-cases, arith, string_eq, eq_iff,
}
use rintel_core.Prelude.Json.{
  Json, null, boolean, integer, negative, real, text, array, object, Items, Fields, item_list,
  get_field,
}
use rintel_core.Protocol.Validation.{
  ProtocolError, not_an_object_in, of_entity, of_fact, of_span, of_claim, fact_fields, span_fields,
  claim_fields, entity_fields, exact_fields, required, mapping, shaped, in_texts, Part,
  invalid_basis, invalid_modality, is_the_text, validate_entity, validate_object, validate_fact,
  validate_facts, fact_list, validate_batch, authority_scan, message_type, validate_message,
}
use rintel_core.Protocol.Validation.Messages.{HasExactly, exact-HasExactly, message_type-ok}

-- A fact: its fields are exactly those of a fact, and so are those of its subject, its place and
-- its claim, and the claim is one of observation.
pub record IsFact (fact : Json) : Type 0 where
  pub fields : Fields
  pub subject : Fields
  pub span : Fields
  pub claim : Fields
  pub is_object : fact ≡ object fields
  pub exact : HasExactly fact_fields fields
  pub has_subject : get_field "subject" fields ≡ some (object subject)
  pub exact_subject : HasExactly entity_fields subject
  pub identified : is_the_text "" (get_field "local_id" subject) ≡ false
  pub has_span : get_field "source_span" fields ≡ some (object span)
  pub exact_span : HasExactly span_fields span
  pub has_claim : get_field "claim" fields ≡ some (object claim)
  pub exact_claim : HasExactly claim_fields claim
  pub basis : String
  pub has_basis : get_field "observation_basis" claim ≡ some (text basis)
  pub basis_known : In basis ("DIRECT" ∷ "DERIVED" ∷ "HEURISTIC" ∷ [])
  pub modality : String
  pub has_modality : get_field "execution_modality" claim ≡ some (text modality)
  pub modality_known : In modality ("MUST" ∷ "MAY" ∷ "UNKNOWN" ∷ [])

>>-ok : (m k : Result ProtocolError (Unit {0})) → (m >> k) ≡ ok tt → (m ≡ ok tt) × (k ≡ ok tt)
>>-ok (ok u) k h = (refl, h)
>>-ok (err e) k h = absurd (ground (arith, h))

mapping-ok :
    (o : Option Json) (e : ProtocolError) (fs : Fields) → mapping o e ≡ ok fs → o ≡ some (object fs)
mapping-ok none e fs h = cc
mapping-ok (some (object gs)) e fs h = cc
mapping-ok (some (text r)) e fs h = cc
mapping-ok (some null) e fs h = cc
mapping-ok (some (boolean b)) e fs h = cc
mapping-ok (some (integer n)) e fs h = cc
mapping-ok (some (negative n)) e fs h = cc
mapping-ok (some (real r)) e fs h = cc
mapping-ok (some (array js)) e fs h = cc

in_texts-ok :
    (ss : List String) (o : Option Json) (e : ProtocolError)
    → in_texts ss o e ≡ ok tt
    → (s : String) × (o ≡ some (text s)) × In s ss
in_texts-ok ss none e h = cc
in_texts-ok ss (some (text s)) e h = (s, refl, contains-In s ss (ground (arith, h)))
in_texts-ok ss (some (object gs)) e h = cc
in_texts-ok ss (some null) e h = cc
in_texts-ok ss (some (boolean b)) e h = cc
in_texts-ok ss (some (integer n)) e h = cc
in_texts-ok ss (some (negative n)) e h = cc
in_texts-ok ss (some (real r)) e h = cc
in_texts-ok ss (some (array js)) e h = cc

shaped-ok :
    (o : Option Json) (ks : List String) (part : Part) (e : ProtocolError) (fs : Fields)
    → shaped o ks part e ≡ ok fs
    → (o ≡ some (object fs)) × HasExactly ks fs
unfolding shaped
shaped-ok o ks part e fs h = elim (Result-cases (mapping o e)) [
  | inl (gs, m) ↦ elim (Result-cases (exact_fields gs ks part)) [
    | inl (u, x) ↦ elim (Result-cases (required gs ks part)) [
      | inl (v, r) ↦
          let same : gs ≡ fs = ground (arith, h, m, x, r) in
          rw (← same) (mapping-ok o e gs m, exact-HasExactly gs ks part x r)
      | inr (z, r) ↦ absurd (ground (arith, h, m, x, r))
    ]
    | inr (z, x) ↦ absurd (ground (arith, h, m, x))
  ]
  | inr (z, m) ↦ absurd (ground (arith, h, m))
]

entity-ok :
    (o : Option Json)
    → validate_entity o ≡ ok tt
    → (fs : Fields) × (o ≡ some (object fs))
      × HasExactly entity_fields fs
      × (is_the_text "" (get_field "local_id" fs) ≡ false)
unfolding validate_entity
entity-ok o h =
    elim (Result-cases (shaped o entity_fields of_entity (not_an_object_in of_entity))) [
      | inl (fs, m) ↦
          let both = shaped-ok o entity_fields of_entity (not_an_object_in of_entity) fs m in
          (fs, both.0, both.1, ground (arith, h, m))
      | inr (z, m) ↦ absurd (ground (arith, h, m))
    ]

-- the calls of `validate_fact` that returned
record Passed (fact : Json) : Type 0 where
  pub fs : Fields
  pub span : Fields
  pub claim : Fields
  pub whole : shaped (some fact) fact_fields of_fact (not_an_object_in of_fact) ≡ ok fs
  pub subject : validate_entity (get_field "subject" fs) ≡ ok tt
  pub place :
      shaped (get_field "source_span" fs) span_fields of_span (not_an_object_in of_span) ≡ ok span
  pub stated :
      shaped (get_field "claim" fs) claim_fields of_claim (not_an_object_in of_claim) ≡ ok claim
  pub basis :
      in_texts
        ("DIRECT" ∷ "DERIVED" ∷ "HEURISTIC" ∷ [])
        (get_field "observation_basis" claim)
        invalid_basis
      ≡ ok tt
  pub modality :
      in_texts
        ("MUST" ∷ "MAY" ∷ "UNKNOWN" ∷ [])
        (get_field "execution_modality" claim)
        invalid_modality
      ≡ ok tt

validate_fact-Passed : (fact : Json) → validate_fact fact ≡ ok tt → Passed fact
unfolding validate_fact
validate_fact-Passed fact h =
    elim (Result-cases (shaped (some fact) fact_fields of_fact (not_an_object_in of_fact))) [
      | inl (fs, m) ↦ elim (Result-cases (validate_entity (get_field "subject" fs))) [
        | inl (u, s) ↦ elim (Result-cases (validate_object (get_field "object" fs))) [
          | inl (v, o) ↦
              elim (Result-cases (
                shaped (get_field "source_span" fs) span_fields of_span
                  (not_an_object_in of_span))) [
                    | inl (sp, p) ↦
                        elim (Result-cases (
                          shaped (get_field "claim" fs) claim_fields of_claim
                            (not_an_object_in of_claim))) [
                              | inl (cl, c) ↦
                                  let rest = inner cl (ground (arith, h, m, s, o, p, c)) in
                                  record {
                                    fs = fs;
                                    span = sp;
                                    claim = cl;
                                    whole = m;
                                    subject = s;
                                    place = p;
                                    stated = c;
                                    basis = rest.0;
                                    modality = rest.1;
                                  }
                              | inr (z, c) ↦ absurd (ground (arith, h, m, s, o, p, c))
                            ]
                    | inr (z, p) ↦ absurd (ground (arith, h, m, s, o, p))
                  ]
          | inr (z, o) ↦ absurd (ground (arith, h, m, s, o))
        ]
        | inr (z, s) ↦ absurd (ground (arith, h, m, s))
      ]
      | inr (z, m) ↦ absurd (ground (arith, h, m))
    ]
  where
    inner :
        (cl : Fields)
        → (in_texts
              ("DIRECT" ∷ "DERIVED" ∷ "HEURISTIC" ∷ [])
              (get_field "observation_basis" cl)
              invalid_basis
            >> in_texts
                ("MUST" ∷ "MAY" ∷ "UNKNOWN" ∷ [])
                (get_field "execution_modality" cl)
                invalid_modality)
          ≡ ok tt
        → (in_texts
              ("DIRECT" ∷ "DERIVED" ∷ "HEURISTIC" ∷ [])
              (get_field "observation_basis" cl)
              invalid_basis
            ≡ ok tt)
          × (in_texts
                ("MUST" ∷ "MAY" ∷ "UNKNOWN" ∷ [])
                (get_field "execution_modality" cl)
                invalid_modality
              ≡ ok tt)
    inner cl q = >>-ok _ _ q

validate_fact-IsFact : (fact : Json) → validate_fact fact ≡ ok tt → IsFact fact
validate_fact-IsFact fact h =
    let p = validate_fact-Passed fact h in
    let whole = shaped-ok (some fact) fact_fields of_fact (not_an_object_in of_fact) p.fs p.whole in
    let (su, es, ex, id) = entity-ok (get_field "subject" p.fs) p.subject in
    let place =
      shaped-ok (get_field "source_span" p.fs) span_fields of_span (not_an_object_in of_span) p.span
        p.place in
    let stated =
      shaped-ok (get_field "claim" p.fs) claim_fields of_claim (not_an_object_in of_claim) p.claim
        p.stated in
    let (bt, hb, kb) =
      in_texts-ok ("DIRECT" ∷ "DERIVED" ∷ "HEURISTIC" ∷ []) (get_field "observation_basis" p.claim)
        invalid_basis p.basis in
    let (dt, hd, kd) =
      in_texts-ok ("MUST" ∷ "MAY" ∷ "UNKNOWN" ∷ []) (get_field "execution_modality" p.claim)
        invalid_modality p.modality in
    record {
      fields = p.fs;
      subject = su;
      span = p.span;
      claim = p.claim;
      is_object = cc (whole.0);
      exact = whole.1;
      has_subject = es;
      exact_subject = ex;
      identified = id;
      has_span = place.0;
      exact_span = place.1;
      has_claim = stated.0;
      exact_claim = stated.1;
      basis = bt;
      has_basis = hb;
      basis_known = kb;
      modality = dt;
      has_modality = hd;
      modality_known = kd;
    }

validate_facts-IsFact : (facts : List Json) → validate_facts facts ≡ ok tt → All IsFact facts
unfolding validate_facts
validate_facts-IsFact [] h = tt
validate_facts-IsFact (j ∷ js) h =
    let (f, rest) = >>-ok (validate_fact j) (validate_facts js) h in
    (validate_fact-IsFact j f, validate_facts-IsFact js rest)

fact_list-ok :
    (o : Option Json) (facts : List Json)
    → fact_list o ≡ ok facts
    → (js : Items) × (o ≡ some (array js))
      × (item_list js ≡ facts)
      × (1 ≤ length facts)
      × (length facts ≤ 1000)
fact_list-ok none facts h = cc
fact_list-ok (some (array js)) facts h =
    elim (Bool-cases (leb 1 (length (item_list js)) && leb (length (item_list js)) 1000)) [
      | inl q ↦
          let same : item_list js ≡ facts = ground (arith, q, h) in
          (js, refl, same, rw (← same) (ground (arith, q)), rw (← same) (ground (arith, q)))
      | inr q ↦ absurd (ground (arith, q, h))
    ]
fact_list-ok (some (object gs)) facts h = cc
fact_list-ok (some null) facts h = cc
fact_list-ok (some (boolean b)) facts h = cc
fact_list-ok (some (integer n)) facts h = cc
fact_list-ok (some (negative n)) facts h = cc
fact_list-ok (some (real r)) facts h = cc
fact_list-ok (some (text s)) facts h = cc

batch-ok :
    (fs : Fields) (e : Option String)
    → validate_message (object fs) e ≡ ok tt
    → get_field "type" fs ≡ some (text "fact_batch")
    → validate_batch fs ≡ ok tt
unfolding validate_message
batch-ok fs e h t = elim (Result-cases (authority_scan (object fs))) [
  | inl (u, s) ↦ elim (Result-cases (message_type (get_field "type" fs))) [
    | inl ((k, ks), m) ↦
        let parts = message_type-ok (get_field "type" fs) k ks m in
        let named : text k ≡ text "fact_batch" = cc (parts.0, t) in
        let is_batch : k ≡ "fact_batch" = ground (arith, named) in
        ground (arith, h, s, m, is_batch, eq_iff k "fact_batch")
    | inr (z, m) ↦ absurd (ground (arith, h, s, m))
  ]
  | inr (z, s) ↦ absurd (ground (arith, h, s))
]

-- A batch of facts that passes holds between 1 and 1000 facts. Each has the fields of a fact, and
-- its subject, its place and its claim have theirs, and no others; the subject has an identity of
-- its own, and the claim names a known basis and a known modality.
pub validate_message-IsFact :
    (message : Json) (expected_type : Option String)
    → validate_message message expected_type ≡ ok tt
    → (fs : Fields) → message ≡ object fs
    → get_field "type" fs ≡ some (text "fact_batch")
    → (js : Items) × (get_field "facts" fs ≡ some (array js))
      × (1 ≤ length (item_list js))
      × (length (item_list js) ≤ 1000)
      × All IsFact (item_list js)
unfolding validate_batch
validate_message-IsFact message e h fs o t =
    let b = batch-ok fs e (rw o at h) t in
    elim (Result-cases (fact_list (get_field "facts" fs))) [
      | inl (facts, l) ↦
          let (js, there, same, low, high) = fact_list-ok (get_field "facts" fs) facts l in
          (
            js,
            there,
            rw same low,
            rw same high,
            rw same (validate_facts-IsFact facts (ground (arith, b, l))),
          )
      | inr (z, l) ↦ absurd (ground (arith, b, l))
    ]
