-- ===== src/Lifecycle/DesignDrc/Cycle.antt =====
-- `visit` of rintel/design_lifecycle/design_drc.py: it ends, and it finds a cycle where there is one.
use rintel_core.Prelude.{
  ℕ, zero, suc, ◌+◌, ◌≤◌, String, Bool, true, false, not, none, some, none-some, List, [], ◌∷◌,
  contains, keep, length, In, Bool-cases, inl, inr, ◌≡◌, refl, arith, ◌==◌, string_eq, eq_iff,
}
use rintel_core.Lifecycle.DesignDrc.{
  Answer, answer, continue, Edges, targets, sources, visit_all, leave, visit, depth, has_cycle,
}

-- a way of at least one planned relation
pub data Way (es : Edges) : String → String → Type 0 where
  last_step : {n t : String} → In t (targets es n) → Way es n t
  then_step : {n t u : String} → In t (targets es n) → Way es t u → Way es n u

abbrev IsDone : Answer → Type 0
IsDone r = (a : Bool × List String) × (r ≡ some a)

pub targets-sources : (es : Edges) (n t : String) → In t (targets es n) → In n (sources es)
targets-sources [] n t m = absurd m
targets-sources ((s, u) ∷ es) n t m = elim (Bool-cases (s == n)) [
  | inl q ↦ inl (ground (arith, q, eq_iff s n))
  | inr q ↦ inr (targets-sources es n t (rw q at m))
]

-- the sources that are not on the way
abbrev outside : Edges → List String → ℕ
outside es active = length (keep (λ s. not (contains s active)) (sources es))

outside-bound : (es : Edges) (active : List String) → outside es active ≤ length es
outside-bound [] active = omega arith
outside-bound ((s, t) ∷ es) active = elim (Bool-cases (contains s active)) [
  | inl q ↦ rw q (omega (arith, outside-bound es active))
  | inr q ↦ rw q (omega (arith, outside-bound es active))
]

outside-less :
    (es : Edges) (n : String) (active : List String) → outside es (n ∷ active) ≤ outside es active
outside-less [] n active = omega arith
outside-less ((s, t) ∷ es) n active = ground (arith, outside-less es n active)

outside-drop :
    (es : Edges) (n : String) (active : List String)
    → contains n active ≡ false
    → In n (sources es)
    → outside es (n ∷ active) + 1 ≤ outside es active
outside-drop [] n active h m = absurd m
outside-drop ((s, t) ∷ es) n active h (inl e) =
    let less = outside-less es n active in
    let there : contains s active ≡ false = rw e h in ground (arith, less, there, eq_iff n s, e)
outside-drop ((s, t) ∷ es) n active h (inr m) =
    let less = outside-drop es n active h m in ground (arith, less)

continue-IsDone :
    (r : Answer) (go : List String → Answer)
    → IsDone r
    → ((d : List String) → IsDone (go d))
    → IsDone (continue r go)
continue-IsDone none go h k = absurd (none-some h.1)
continue-IsDone (some (true, d)) go h k = ((true, d), refl)
continue-IsDone (some (false, d)) go h k = k d

visit_all-IsDone :
    (go : String → List String → Answer) (ts : List String)
    → ((t : String) → In t ts → (d : List String) → IsDone (go t d))
    → (d : List String) → IsDone (visit_all go ts d)
visit_all-IsDone go [] h d = ((false, d), refl)
visit_all-IsDone go (t ∷ ts) h d =
    continue-IsDone (go t d) (visit_all go ts) (h t (inl refl) d)
      (visit_all-IsDone go ts (λ u m. h u (inr m)))

leave-IsDone : (n : String) (r : Answer) → IsDone r → IsDone (leave n r)
leave-IsDone n none h = absurd (none-some h.1)
leave-IsDone n (some (true, d)) h = ((true, d), refl)
leave-IsDone n (some (false, d)) h = ((false, n ∷ d), refl)

-- a node that is not on the way, nor done
abbrev pub below : ℕ → Edges → String → List String → List String → Answer
below fuel es n active done = visit_all (λ t d. visit fuel es t (n ∷ active) d) (targets es n) done

abbrev pub Entered : ℕ → Edges → String → List String → List String → Type 0
Entered fuel es n active done =
    visit (suc fuel) es n active done ≡ leave n (below fuel es n active done)

pub visit_on_way :
    (fuel : ℕ) (es : Edges) (n : String) (active done : List String)
    → contains n active ≡ true
    → visit (suc fuel) es n active done ≡ some (true, done)
unfolding visit
visit_on_way fuel es n active done h = rw (h, visit) refl

pub visit_done :
    (fuel : ℕ) (es : Edges) (n : String) (active done : List String)
    → contains n active ≡ false
    → contains n done ≡ true
    → visit (suc fuel) es n active done ≡ some (false, done)
unfolding visit
visit_done fuel es n active done h k = rw (h, visit, k) refl

pub visit_new :
    (fuel : ℕ) (es : Edges) (n : String) (active done : List String)
    → contains n active ≡ false
    → contains n done ≡ false
    → Entered fuel es n active done
unfolding visit
visit_new fuel es n active done h k = rw (h, visit, k) refl

visit-IsDone :
    (fuel : ℕ) (es : Edges) (n : String) (active done : List String)
    → outside es active + 1 ≤ fuel
    → IsDone (visit fuel es n active done)
visit-IsDone zero es n active done h = absurd (omega (arith, h))
visit-IsDone (suc fuel) es n active done h = elim (Bool-cases (contains n active)) [
  | inl q ↦ ((true, done), visit_on_way fuel es n active done q)
  | inr q ↦ elim (Bool-cases (contains n done)) [
    | inl p ↦ ((false, done), visit_done fuel es n active done q p)
    | inr p ↦ rw (visit_new fuel es n active done q p) (
        leave-IsDone n (below fuel es n active done) (
          visit_all-IsDone (λ t d. visit fuel es t (n ∷ active) d) (targets es n)
            (λ t m d.
              visit-IsDone fuel es t (n ∷ active) d
                (omega (arith, h, outside-drop es n active q (targets-sources es n t m))))
            done))
  ]
]

answer-some : (r : Answer) → IsDone r → (b : Bool) × (answer r ≡ some b)
answer-some none h = absurd (none-some h.1)
answer-some (some (b, d)) h = (b, refl)

-- The search for a cycle ends for every plan: the nesting of its calls never goes beyond the number of
-- planned relations and two.
pub has_cycle-total : (es : Edges) → (b : Bool) × (has_cycle es ≡ some b)
unfolding has_cycle
has_cycle-total es = answer-some _ (
    visit_all-IsDone (λ n d. visit (depth es) es n [] d) (sources es)
      (λ n m d. visit-IsDone (depth es) es n [] d (omega (arith, outside-bound es []))) [])
