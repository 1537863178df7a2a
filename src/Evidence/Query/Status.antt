-- ===== src/Evidence/Query/Status.antt =====
-- What an answer of `classify_evidence` rests on.
use rintel_core.Prelude.{
  ◌≡◌, ◌≢◌, Bool, false, List, [], ◌∷◌, any, All, In, ok, Bool-cases, arith, inl, inr, ◌∙◌, true,
  ◌⊎◌, ap, sym, refl, after, ok-inj, ok-subst, ◌==◌,
}
use rintel_core.Prelude.Groups.Places.{All-In}
use rintel_core.Evidence.Contract.{
  inferred, heuristic, TargetResolution, truth_eq, resolution_eq, truth_beq_iff, resolution_beq_iff,
}
use rintel_core.Evidence.Registry.{
  AuthorityClass, LaneDefinition, canonical_candidate, reference_evidence, class_eq, class_beq_iff,
  require,
}
use rintel_core.Evidence.Envelope.{
  ClaimPayload, Payload, claim, annotation, EvidenceEnvelope, CanonicalStateRef,
}
use rintel_core.Evidence.Wire.{Codec}
use rintel_core.Evidence.Admission.{Engine}
use rintel_core.Evidence.Alignment.{align}
use rintel_core.Evidence.Bridge.{CrossLanguageBridge}
use rintel_core.Evidence.Query.{
  known_canonically, QueryAuthorityResult, keep_claim, claims_in, is_unresolved, is_guessed,
  is_annotated, status_of, segments, classify_evidence,
}

-- a claim with a resolved target that was not inferred
pub record IsFirm (c : ClaimPayload) : Type 0 where
  pub resolved : c.resolution ≢ TargetResolution.unknown
  pub not_inferred : c.truth_class ≢ inferred
  pub not_heuristic : c.truth_class ≢ heuristic

firm : (c : ClaimPayload) → is_unresolved c ≡ false → is_guessed c ≡ false → IsFirm c
firm c u g = record {
  resolved = λ e. ground (arith, u, e, resolution_beq_iff c.resolution TargetResolution.unknown);
  not_inferred = λ e. ground (arith, g, e, truth_beq_iff c.truth_class inferred);
  not_heuristic = λ e. ground (arith, g, e, truth_beq_iff c.truth_class heuristic);
}

All-IsFirm :
    (cs : List ClaimPayload)
    → any is_unresolved cs ≡ false
    → any is_guessed cs ≡ false
    → All IsFirm cs
All-IsFirm [] u g = tt
All-IsFirm (c ∷ cs) u g = (
  firm c (ground (arith, u)) (ground (arith, g)),
  All-IsFirm cs (ground (arith, u)) (ground (arith, g)),
)

status-known :
    (cs rs : List ClaimPayload) (annotated : Bool)
    → status_of cs rs annotated ≡ known_canonically
    → (cs ≢ []) × All IsFirm cs
unfolding status_of
status-known [] rs annotated h = absurd (ground (arith, h))
status-known (c ∷ cs) rs annotated h =
    (λ e. cc, All-IsFirm (c ∷ cs) (ground (arith, h)) (ground (arith, h)))

keep_claim-In :
    (k : AuthorityClass) (lane : LaneDefinition) (p : Payload) (rest : List ClaimPayload)
    (c : ClaimPayload)
    → In c (keep_claim k lane p rest)
    → ((p ≡ claim c) × (lane.authority_class ≡ k)) ⊎ In c rest
keep_claim-In k lane (annotation a) rest c m = inr m
keep_claim-In k lane (claim d) rest c m = elim (Bool-cases (lane.authority_class == k)) [
  | inl q ↦ elim (rw q at m) [
    | inl e ↦ inl (ap claim e, (class_beq_iff lane.authority_class k).0 q)
    | inr n ↦ inr n
  ]
  | inr q ↦ inr (rw q at m)
]

keep_claim-rest :
    (k : AuthorityClass) (lane : LaneDefinition) (p : Payload) (rest : List ClaimPayload)
    (c : ClaimPayload)
    → In c rest
    → In c (keep_claim k lane p rest)
keep_claim-rest k lane (annotation a) rest c m = m
keep_claim-rest k lane (claim d) rest c m = elim (Bool-cases (lane.authority_class == k)) [
  | inl q ↦ rw q (inr m)
  | inr q ↦ rw q m
]

keep_claim-here :
    (k : AuthorityClass) (lane : LaneDefinition) (p : Payload) (rest : List ClaimPayload)
    (c : ClaimPayload)
    → p ≡ claim c
    → lane.authority_class ≡ k
    → In c (keep_claim k lane p rest)
keep_claim-here k lane p rest c e f =
    let same : (lane.authority_class == k) ≡ true = (class_beq_iff lane.authority_class k).1 f in
    rw e (rw same (inl refl))

-- The envelope states this claim on a lane of the class.
pub record States (engine : Engine) (k : AuthorityClass) (e : EvidenceEnvelope) (c : ClaimPayload)
    : Type 0 where
  pub lane : LaneDefinition
  pub registered : require engine.registry e.lane_id ≡ ok lane
  pub of_class : lane.authority_class ≡ k
  pub stated : e.payload ≡ claim c

claims_in-States :
    (engine : Engine) (k : AuthorityClass) (es : List EvidenceEnvelope) (cs : List ClaimPayload)
    (c : ClaimPayload)
    → claims_in engine k es ≡ ok cs
    → In c cs
    → (e : EvidenceEnvelope) × In e es × States engine k e c
unfolding claims_in
claims_in-States engine k [] cs c h m = absurd (ok-subst (λ l. In c l) (sym h) m)
claims_in-States engine k (e ∷ es) cs c h m =
    let (lane, l, h1) = after (require engine.registry e.lane_id) _ h in
    let (rest, t, h2) = after (claims_in engine k es) _ h1 in
    elim (keep_claim-In k lane e.payload rest c (ok-subst (λ l. In c l) (sym h2) m)) [
      | inl (p, a) ↦ (e, inl refl, record { lane = lane; registered = l; of_class = a; stated = p })
      | inr n ↦ let (f, i, s) = claims_in-States engine k es rest c t n in (f, inr i, s)
    ]

States-claims_in :
    (engine : Engine) (k : AuthorityClass) (es : List EvidenceEnvelope) (cs : List ClaimPayload)
    (e : EvidenceEnvelope) (c : ClaimPayload)
    → claims_in engine k es ≡ ok cs
    → In e es
    → States engine k e c
    → In c cs
unfolding claims_in
States-claims_in engine k [] cs e c h m s = absurd m
States-claims_in engine k (f ∷ es) cs e c h m s =
    let (lane, l, h1) = after (require engine.registry f.lane_id) _ h in
    let (rest, t, h2) = after (claims_in engine k es) _ h1 in
    elim m [
      | inl i ↦
          let same : lane ≡ s.lane =
            ok-inj (sym l ∙ ap (λ g. require engine.registry g.lane_id) i ∙ s.registered) in
          ok-subst (λ l. In c l) h2
            (keep_claim-here k lane f.payload rest c (ap (λ g. g.payload) i ∙ s.stated)
              (ap (λ l. l.authority_class) same ∙ s.of_class))
      | inr n ↦
          ok-subst (λ l. In c l) h2
            (keep_claim-rest k lane f.payload rest c (States-claims_in engine k es rest e c t n s))
    ]

some_first : (cs : List ClaimPayload) → cs ≢ [] → (c : ClaimPayload) × In c cs
some_first [] n = absurd (n refl)
some_first (c ∷ cs) n = (c, inl refl)

-- An answer is called known canonically only where one of the given envelopes states a claim on a
-- canonical lane, and then every claim that a given envelope states on such a lane is resolved and
-- is neither inferred nor heuristic.
pub classify_evidence-known :
    (codec : Codec) (engine : Engine) (es : List EvidenceEnvelope) (state : CanonicalStateRef)
    (bridges : List CrossLanguageBridge) (r : QueryAuthorityResult)
    → classify_evidence codec engine es state bridges ≡ ok r
    → r.answer_status ≡ known_canonically
    → ((e : EvidenceEnvelope) × (c : ClaimPayload) × In e es
        × States engine canonical_candidate e c)
      × ((e : EvidenceEnvelope) (c : ClaimPayload)
          → In e es
          → States engine canonical_candidate e c
          → IsFirm c)
unfolding classify_evidence
classify_evidence-known codec engine es state bridges r h k =
    let (ss, e, h1) = after (segments engine es) _ h in
    let (canonical, f, h2) = after (claims_in engine canonical_candidate es) _ h1 in
    let (references, g, h3) = after (claims_in engine reference_evidence es) _ h2 in
    let (a, i, h4) = after (align codec engine state es) _ h3 in
    let status = ap (λ q. q.answer_status) (ok-inj h4) ∙ k in
    let (n, firm) = status-known canonical references (any is_annotated es) status in
    let (c, m) = some_first canonical n in
    let (b, j, s) = claims_in-States engine canonical_candidate es canonical c f m in
    (
      (b, c, j, s),
      λ e c m s.
          All-In IsFirm canonical firm
            (States-claims_in engine canonical_candidate es canonical e c f m s),
    )
