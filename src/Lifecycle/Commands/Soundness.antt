-- ===== src/Lifecycle/Commands/Soundness.antt =====
-- What a change owes to its state, over the commands of rintel/design_lifecycle/service.py.
use rintel_core.Prelude.{
  ℕ, suc, String, Bool, true, false, not, some, List, [], ◌∷◌, map, contains, contains-In, any, All,
  In, is_nil, Result, ok, Option-cases, inl, inr, ◌≡◌, refl, arith, ◌>>◌, ◌==◌, nat_eq, string_eq,
  option_eq, ap, eq_iff, All-map, find_last-holds, ◌∙◌, sym, after_raise,
}
use rintel_core.Prelude.Json.{Fields}
use rintel_core.Lifecycle.Models.{
  ChangeState, opened, planned, implementing, evidence_matched, verified, closed, abandoned,
  state_eq, AcceptanceCriterion, DesignRevision, CriterionResult, CloseReceipt, DesignChange, Code,
  invalid_transition,
}
use rintel_core.Lifecycle.Context.{implementation_of}
use rintel_core.Lifecycle.Gates.{
  drc_acceptable, outcome_matched, lvs_matched, require_state, is_recorded, is_lacking, result_for,
}
use rintel_core.Lifecycle.Commands.{or_not_verified, normalized}

-- a required criterion has a result that passed, with evidence
abbrev pub IsMet : List CriterionResult → AcceptanceCriterion → Type 0
IsMet rs a =
    a.required ≡ true
    → (r : CriterionResult) × In r rs
      × (r.criterion_id ≡ a.id)
      × (r.status ≡ "PASS")
      × (is_nil r.evidence_refs ≡ false)

abbrev pub HasMatched : DesignChange → Type 0
HasMatched c =
    (drc_acceptable c ≡ true)
    × (outcome_matched c ≡ true)
    × (lvs_matched c ≡ true)
    × (is_recorded (implementation_of c).observation_status ≡ true)

-- the results stand for the criteria, one for each
abbrev pub IsAnswered : List CriterionResult → List AcceptanceCriterion → Type 0
IsAnswered rs criteria =
    map (λ (r : CriterionResult). r.criterion_id) rs
    ≡ map (λ (a : AcceptanceCriterion). a.id) criteria

abbrev pub IsVerified : DesignChange → Type 0
IsVerified c =
    HasMatched c
    × All (IsMet c.verification) c.acceptance_criteria
    × IsAnswered c.verification c.acceptance_criteria

abbrev pub IsClosed : DesignChange → Type 0
IsClosed c =
    IsVerified c
    × (is_nil c.verification ≡ false)
    × ((r : CloseReceipt) × (c.close_receipt ≡ some r)
        × (r.design_revision ≡ c.design_revision.id)
        × (r.final_canonical_revision ≡ (implementation_of c).current_evidence_revision)
        × (r.verification_evidence ≡ c.verification))

-- what a change owes to the state that it is in
abbrev pub IsSoundIn : ChangeState → DesignChange → Type 0
IsSoundIn implementing c = drc_acceptable c ≡ true
IsSoundIn evidence_matched c = HasMatched c
IsSoundIn verified c = IsVerified c
IsSoundIn closed c = IsClosed c
IsSoundIn _ c = Unit

unfoldable pub IsSound : DesignChange → Type 0
IsSound c = IsSoundIn c.state c

-- the moves of the documented lifecycle
abbrev pub can_move : ChangeState → ChangeState → Bool
can_move opened t = contains t (opened ∷ planned ∷ abandoned ∷ [])
can_move planned t = contains t (planned ∷ implementing ∷ abandoned ∷ [])
can_move implementing t = contains t (implementing ∷ evidence_matched ∷ abandoned ∷ [])
can_move evidence_matched t = contains t (verified ∷ abandoned ∷ [])
can_move verified t = contains t (closed ∷ abandoned ∷ [])
can_move closed t = false
can_move abandoned t = false

-- what a command leaves as it was, with the version and its time
abbrev pub frame :
    DesignChange → String × ℕ × ℕ × ℕ × String × String × String × Fields × List AcceptanceCriterion
frame c = (
  c.id, c.version, c.updated_at, c.created_at, c.repo_id, c.base_canonical_revision, c.intent,
  c.scope, c.acceptance_criteria,
)

-- a version of a change and the next one
abbrev pub IsNext : ℕ → DesignChange → DesignChange → Type 0
IsNext now c d = frame d ≡ frame (record c { version = suc c.version; updated_at = now })

-- with the move of its state, and what it owes to the new one
abbrev pub IsStep : ℕ → DesignChange → DesignChange → Type 0
IsStep now c d = IsNext now c d × (can_move c.state d.state ≡ true) × IsSound d

pub only-In : {s t : ChangeState} → In s (t ∷ []) → s ≡ t
only-In (inl e) = sym e
only-In (inr n) = absurd n

pub require_state-In :
    (c : DesignChange) (ss : List ChangeState) {A : Type 0} (k : Result Code A) {a : A}
    → (require_state c ss >> k) ≡ ok a
    → In c.state ss × (k ≡ ok a)
unfolding require_state
require_state-In c ss k h =
    let both = after_raise (not (contains c.state ss)) invalid_transition k h in
    (contains-In c.state ss (ground (arith, both.0)), both.1)

pub draft-IsSound :
    (c : DesignChange) (d : DesignRevision) (v t : ℕ)
    → In c.state (opened ∷ planned ∷ [])
    → IsSound (record c { version = v; updated_at = t; design_revision = d })
unfolding IsSound
draft-IsSound c d v t (inl e) = rw (← e) tt
draft-IsSound c d v t (inr (inl e)) = rw (← e) tt
draft-IsSound c d v t (inr (inr n)) = absurd n

pub keeps-IsSound :
    (c d : DesignChange)
    → c.state ≡ implementing
    → d.state ≡ implementing
    → drc_acceptable d ≡ drc_acceptable c
    → IsSound c
    → IsSound d
unfolding IsSound
keeps-IsSound c d s t e h = let k : drc_acceptable c ≡ true = rw s at h in rw t (e ∙ k)

weaken-IsMet :
    (q : CriterionResult) (rs : List CriterionResult) (a : AcceptanceCriterion)
    → IsMet rs a
    → IsMet (q ∷ rs) a
weaken-IsMet q rs a h required = let (r, m, k, e, n) = h required in (r, inr m, k, e, n)

module _ (results : List CriterionResult) where
  result-IsMet :
      (a : AcceptanceCriterion) (rs : List CriterionResult)
      → is_lacking results a ≡ false
      → IsMet (normalized results a ∷ rs) a
  unfolding result_for
  result-IsMet a rs h required = elim (Option-cases (result_for results a.id)) [
    | inl q ↦ absurd (ground (arith, h, required, q))
    | inr (r, q) ↦ (
      r,
      inl (ap (or_not_verified a.id) q),
      (eq_iff r.criterion_id a.id).0
          (find_last-holds (λ (r : CriterionResult). r.criterion_id == a.id) results q),
      ground (arith, eq_iff r.status "PASS", h, required, q),
      ground (arith, h, required, q),
    )
  ]

  pub normalized-IsMet :
      (criteria : List AcceptanceCriterion)
      → any (is_lacking results) criteria ≡ false
      → All (IsMet (map (normalized results) criteria)) criteria
  normalized-IsMet [] h = tt
  normalized-IsMet (a ∷ criteria) h = (
    result-IsMet a (map (normalized results) criteria) (ground (arith, h)),
    All-map _ _ criteria (weaken-IsMet (normalized results a) (map (normalized results) criteria))
        (normalized-IsMet criteria (ground (arith, h))),
  )

normalized-id :
    (results : List CriterionResult) (a : AcceptanceCriterion)
    → (normalized results a).criterion_id ≡ a.id
unfolding result_for
normalized-id results a = elim (Option-cases (result_for results a.id)) [
  | inl q ↦ ap (λ o. (or_not_verified a.id o).criterion_id) q
  | inr (r, q) ↦
      ap (λ o. (or_not_verified a.id o).criterion_id) q
      ∙ (eq_iff r.criterion_id a.id).0
          (find_last-holds (λ (r : CriterionResult). r.criterion_id == a.id) results q)
]

pub normalized-IsAnswered :
    (results : List CriterionResult) (criteria : List AcceptanceCriterion)
    → IsAnswered (map (normalized results) criteria) criteria
normalized-IsAnswered results [] = refl
normalized-IsAnswered results (a ∷ criteria) =
    rw (normalized-id results a, normalized-IsAnswered results criteria) refl

pub draft-can_move :
    {s : ChangeState}
    → In s (opened ∷ planned ∷ [])
    → (can_move s planned ≡ true) × (can_move s s ≡ true)
draft-can_move (inl e) = rw (← e) (refl, refl)
draft-can_move (inr (inl e)) = rw (← e) (refl, refl)
draft-can_move (inr (inr n)) = absurd n
