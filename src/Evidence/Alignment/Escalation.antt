-- ===== src/Evidence/Alignment/Escalation.antt =====
-- Alignment never raises a claim above what a canonical provider said.
use rintel_core.Prelude.{
  ◌≡◌, ◌⊎◌, inl, inr, refl, String, true, ◌&&◌, ◌||◌, none, some, List, [], ◌∷◌, ◌++◌, map, any,
  length, ltb, nat_eq, contains, All, All-append, In, ok, Result-cases, Bool-cases, ◌==◌, arith,
}
use rintel_core.Prelude.Dict.{lookup}
use rintel_core.Prelude.Groups.{Groups, group_by}
use rintel_core.Prelude.Groups.Places.{IsWithin, group_by-IsWithin}
use rintel_core.Evidence.Registry.{
  AuthorityClass, canonical_candidate, reference_evidence, class_eq, LaneDefinition,
}
use rintel_core.Evidence.Envelope.{EvidenceEnvelope, CanonicalStateRef}
use rintel_core.Evidence.Wire.{Codec, digest}
use rintel_core.Evidence.Admission.{Engine, CanonicalAdmission, admit}
use rintel_core.Evidence.Canonical.Reconcile.{Slot, slot_eq}
use rintel_core.Evidence.Alignment.{
  Stated, AlignmentResult, AlignmentKind, Authority, corroboration, provider_conflict,
  reference_disagreement, canonical_reference_discrepancy, unknown_preserved, canonical_admission,
  of_class, mixed, result, first_dimensions, is_empty, different, stance, stance_eq, support,
  class_is, dimensions_of, anchor, stated, is_unknown, lanes_of, of_lane_class, admissions,
  among_canonical, among_references, between, align_group, align_groups, align,
}

module _ (codec : Codec) (engine : Engine) (state : CanonicalStateRef) where
  -- a claim that `admit` lets through
  pub record IsAdmitted (all : List Stated) (s : Stated) : Type 0 where
    pub given : In s all
    pub receipt : CanonicalAdmission
    pub passed : admit codec engine s.envelope state ≡ ok receipt

  -- A result leaves the state as it was, and the dimensions that it has, if any, are those of a
  -- claim given whose envelope is admitted.
  pub record IsGrounded (all : List Stated) (r : AlignmentResult) : Type 0 where
    pub state_before : r.canonical_state_before ≡ state
    pub state_after : r.canonical_state_after ≡ state
    pub from_canonical :
        (r.dimensions ≡ none)
        ⊎ ((s : Stated) × IsAdmitted all s × (r.dimensions ≡ some (dimensions_of s.stated_claim)))

  admissions-IsAdmitted :
      (all ss : List Stated) (rs : List AlignmentResult)
      → All (λ s. In s all) ss
      → admissions codec engine state ss ≡ ok rs
      → All (IsAdmitted all) ss × All (IsGrounded all) rs
  unfolding admissions
  admissions-IsAdmitted all [] rs w h = let v : [] ≡ rs = ground (arith, h) in (tt, rw (← v) tt)
  admissions-IsAdmitted all (s ∷ ss) rs w h =
      elim (Result-cases (admit codec engine s.envelope state)) [
        | inl (a, e) ↦ elim (Result-cases (admissions codec engine state ss)) [
          | inl (rest, f) ↦
              let ih = admissions-IsAdmitted all ss rest w.1 f in
              let here : IsAdmitted all s = record { given = w.0; receipt = a; passed = e } in
              let v : (result codec engine state canonical_admission (of_class canonical_candidate)
                      (s ∷ []) (some (dimensions_of s.stated_claim))
                    ∷ rest)
                  ≡ rs =
                ground (arith, e, f) in
              (
                (here, ih.0),
                rw (← v) (
                  record {
                    state_before = refl;
                    state_after = refl;
                    from_canonical = inr (s, here, refl);
                  },
                  ih.1,
                ),
              )
          | inr (x, f) ↦ absurd (ground (arith, e, f))
        ]
        | inr (x, e) ↦ absurd (ground (arith, e))
      ]

  first-IsAdmitted :
      (all ss : List Stated)
      → All (IsAdmitted all) ss
      → (first_dimensions ss ≡ none)
        ⊎ ((s : Stated) × IsAdmitted all s
            × (first_dimensions ss ≡ some (dimensions_of s.stated_claim)))
  first-IsAdmitted all [] h = inl refl
  first-IsAdmitted all (s ∷ ss) h = inr (s, h.0, refl)

  -- a result with the dimensions of the first canonical claim, or with none
  plain :
      (all : List Stated) (k : AlignmentKind) (a : Authority) (ss : List Stated)
      → IsGrounded all (result codec engine state k a ss none)
  plain all k a ss = record { state_before = refl; state_after = refl; from_canonical = inl refl }

  from_first :
      (all : List Stated) (k : AlignmentKind) (a : Authority) (ss cs : List Stated)
      → All (IsAdmitted all) cs
      → IsGrounded all (result codec engine state k a ss (first_dimensions cs))
  from_first all k a ss cs h = record {
    state_before = refl;
    state_after = refl;
    from_canonical = first-IsAdmitted all cs h;
  }

  among_canonical-IsGrounded :
      (all cs : List Stated)
      → All (IsAdmitted all) cs
      → All (IsGrounded all) (among_canonical codec engine state cs)
  unfolding among_canonical
  among_canonical-IsGrounded all cs h = elim (Bool-cases (ltb 1 (length cs))) [
    | inl p ↦
        rw p elim (Bool-cases (length (different (map (stance codec engine state) cs)) == 1)) [
          | inl q ↦ rw q (from_first all corroboration (of_class canonical_candidate) cs cs h, tt)
          | inr q ↦ rw q (plain all provider_conflict (of_class canonical_candidate) cs, tt)
        ]
    | inr p ↦ rw p tt
  ]

  among_references-IsGrounded :
      (all rs : List Stated) → All (IsGrounded all) (among_references codec engine state rs)
  unfolding among_references
  among_references-IsGrounded all rs =
      elim (Bool-cases
        (ltb 1 (length rs) && ltb 1 (length (different (map (stance codec engine state) rs))))) [
          | inl p ↦ rw p (plain all reference_disagreement (of_class reference_evidence) rs, tt)
          | inr p ↦ rw p tt
        ]

  between-IsGrounded :
      (all cs rs : List Stated)
      → All (IsAdmitted all) cs
      → All (IsGrounded all) (between codec engine state cs rs)
  unfolding between
  between-IsGrounded all cs rs h = elim (Bool-cases (is_empty cs || is_empty rs)) [
    | inl p ↦ rw p tt
    | inr p ↦ rw p elim (Bool-cases (any is_unknown cs)) [
      | inl q ↦ rw q (from_first all unknown_preserved mixed rs cs h, tt)
      | inr q ↦
          rw q
            elim (Bool-cases (
              any (λ v. contains v (map (stance codec engine state) rs))
                (map (stance codec engine state) cs))) [
                  | inl r ↦ rw r (from_first all corroboration mixed (cs ++ rs) cs h, tt)
                  | inr r ↦ rw r (plain all canonical_reference_discrepancy mixed (cs ++ rs), tt)
                ]
    ]
  ]

  of_lane_class-All :
      (P : Stated → Type 0) (lanes : List (String × LaneDefinition)) (k : AuthorityClass)
      (ss : List Stated)
      → All P ss
      → All P (of_lane_class codec engine state lanes k ss)
  unfolding of_lane_class
  of_lane_class-All P lanes k [] h = tt
  of_lane_class-All P lanes k (s ∷ ss) h =
      elim (Bool-cases (class_is codec engine state k (lookup (digest codec s.envelope) lanes))) [
        | inl p ↦ rw p (h.0, of_lane_class-All P lanes k ss h.1)
        | inr p ↦ rw p (of_lane_class-All P lanes k ss h.1)
      ]

  align_group-IsGrounded :
      (all : List Stated) (lanes : List (String × LaneDefinition)) (group : List Stated)
      (rs : List AlignmentResult)
      → All (λ s. In s all) group
      → align_group codec engine state lanes group ≡ ok rs
      → All (IsGrounded all) rs
  unfolding align_group
  align_group-IsGrounded all lanes group rs w h =
      let cs = of_lane_class codec engine state lanes canonical_candidate group in
      let fs = of_lane_class codec engine state lanes reference_evidence group in
      elim (Result-cases (admissions codec engine state cs)) [
        | inl (admitted, e) ↦
            let both =
              admissions-IsAdmitted all cs admitted
                (of_lane_class-All (λ s. In s all) lanes canonical_candidate group w) e in
            let v : admitted
                  ++ (among_canonical codec engine state cs
                      ++ (among_references codec engine state fs
                          ++ between codec engine state cs fs))
                ≡ rs =
              ground (arith, e, h) in
            rw (← v) (
              All-append (IsGrounded all) admitted _ both.1 (
                All-append (IsGrounded all) (among_canonical codec engine state cs) _
                  (among_canonical-IsGrounded all cs both.0)
                  (All-append (IsGrounded all) (among_references codec engine state fs) _
                    (among_references-IsGrounded all fs) (between-IsGrounded all cs fs both.0))))
        | inr (x, e) ↦ absurd (ground (arith, e))
      ]

  align_groups-IsGrounded :
      (all : List Stated) (lanes : List (String × LaneDefinition)) (gs : Groups Slot Stated)
      (rs : List AlignmentResult)
      → All (IsWithin all) gs
      → align_groups codec engine state lanes gs ≡ ok rs
      → All (IsGrounded all) rs
  unfolding align_groups
  align_groups-IsGrounded all lanes [] rs w h = let v : [] ≡ rs = ground (arith, h) in rw (← v) tt
  align_groups-IsGrounded all lanes ((k, group) ∷ gs) rs w h =
      elim (Result-cases (align_group codec engine state lanes group)) [
        | inl (here, e) ↦ elim (Result-cases (align_groups codec engine state lanes gs)) [
          | inl (rest, f) ↦
              let v : here ++ rest ≡ rs = ground (arith, e, f) in
              rw (← v) (
                All-append (IsGrounded all) here rest
                  (align_group-IsGrounded all lanes group here w.0 e)
                  (align_groups-IsGrounded all lanes gs rest w.1 f))
          | inr (x, f) ↦ absurd (ground (arith, e, f))
        ]
        | inr (x, e) ↦ absurd (ground (arith, e))
      ]

  -- Each result of an alignment keeps the canonical state before and after, and if it has
  -- dimensions, they are those of one of the given claims whose envelope `admit` lets through.
  pub align-IsGrounded :
      (es : List EvidenceEnvelope) (rs : List AlignmentResult)
      → align codec engine state es ≡ ok rs
      → All (IsGrounded (stated es)) rs
  unfolding align
  align-IsGrounded es rs h = elim (Result-cases (lanes_of codec engine state es)) [
    | inl (lanes, e) ↦
        align_groups-IsGrounded (stated es) lanes (group_by anchor (stated es)) rs
          (group_by-IsWithin anchor (stated es)) (ground (arith, e))
    | inr (x, e) ↦ absurd (ground (arith, e))
  ]

  -- Where canonical claims and reference claims meet and one canonical claim is unresolved, the
  -- only result about both says that the unknown is preserved: references resolve nothing.
  pub between_unknown :
      (cs rs : List Stated) (r : AlignmentResult)
      → any is_unknown cs ≡ true
      → In r (between codec engine state cs rs)
      → (r.kind ≡ unknown_preserved)
        × (r.dimensions ≡ first_dimensions cs)
        × (r.supporting_evidence ≡ map (support codec engine state) rs)
  unfolding between
  between_unknown cs rs r u m = ground (arith, m, u)
