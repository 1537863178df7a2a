-- ===== src/Lifecycle/DesignDrc/Search.antt =====
-- `visit` of rintel/design_lifecycle/design_drc.py answers what the planned relations say: there is a
-- way from some node back to it, or there is none.
use rintel_core.Prelude.{
  ℕ, zero, suc, String, Bool, true, false, none, some, some-inj, none-some, List, [], ◌∷◌, contains,
  contains-In, In, Bool-cases, inl, inr, ◌⊎◌, ◌≡◌, ◌↔◌, refl, sym, ap, ◌∙◌, subst, string_eq,
}
use rintel_core.Lifecycle.DesignDrc.{
  Answer, answer, continue, Edges, targets, sources, visit_all, leave, visit, depth, has_cycle,
}
use rintel_core.Lifecycle.DesignDrc.Cycle.{
  Way, last_step, then_step, targets-sources, below, Entered, visit_on_way, visit_done, visit_new,
  has_cycle-total,
}

abbrev IsCyclic : Edges → Type 0
IsCyclic es = (n : String) × Way es n n

abbrev Found : List String → Answer
Found d = some (true, d)

abbrev Clear : List String → Answer
Clear d = some (false, d)

same_done : {d e : List String} → Clear d ≡ Clear e → d ≡ e
same_done h = ap (λ p. p.1) (some-inj h)

found_is_not_clear : {d e : List String} → Found d ≡ Clear e → ⊥
found_is_not_clear h = absurd cc

clear_is_not_found : {d e : List String} → Clear d ≡ Found e → ⊥
clear_is_not_found h = absurd cc

continue-Found :
    (r : Answer) (go : List String → Answer) (d : List String)
    → continue r go ≡ Found d
    → (r ≡ Found d) ⊎ ((e : List String) × (r ≡ Clear e) × (go e ≡ Found d))
continue-Found none go d h = absurd (none-some h)
continue-Found (some (true, e)) go d h = inl h
continue-Found (some (false, e)) go d h = inr (e, refl, h)

continue-Clear :
    (r : Answer) (go : List String → Answer) (d : List String)
    → continue r go ≡ Clear d
    → (e : List String) × (r ≡ Clear e) × (go e ≡ Clear d)
continue-Clear none go d h = absurd (none-some h)
continue-Clear (some (true, e)) go d h = absurd (found_is_not_clear h)
continue-Clear (some (false, e)) go d h = (e, refl, h)

leave-Found : (n : String) (r : Answer) (d : List String) → leave n r ≡ Found d → r ≡ Found d
leave-Found n none d h = absurd (none-some h)
leave-Found n (some (true, e)) d h = h
leave-Found n (some (false, e)) d h = absurd (clear_is_not_found h)

leave-Clear :
    (n : String) (r : Answer) (d : List String)
    → leave n r ≡ Clear d
    → (e : List String) × (r ≡ Clear e) × (n ∷ e ≡ d)
leave-Clear n none d h = absurd (none-some h)
leave-Clear n (some (true, e)) d h = absurd (found_is_not_clear h)
leave-Clear n (some (false, e)) d h = (e, refl, same_done h)

-- the three ways to enter a node
enters :
    (fuel : ℕ) (es : Edges) (n : String) (active done : List String)
    → ((contains n active ≡ true) × (visit (suc fuel) es n active done ≡ Found done))
      ⊎ (((contains n done ≡ true) × (visit (suc fuel) es n active done ≡ Clear done))
          ⊎ Entered fuel es n active done)
enters fuel es n active done = elim (Bool-cases (contains n active)) [
  | inl q ↦ inl (q, visit_on_way fuel es n active done q)
  | inr q ↦ elim (Bool-cases (contains n done)) [
    | inl p ↦ inr (inl (p, visit_done fuel es n active done q p))
    | inr p ↦ inr (inr (visit_new fuel es n active done q p))
  ]
]

visit_all-Found :
    {C : Type 0} (go : String → List String → Answer) (ts : List String)
    → ((t : String) → In t ts → (d e : List String) → go t d ≡ Found e → C)
    → (d e : List String) → visit_all go ts d ≡ Found e
    → C
visit_all-Found go [] h d e k = absurd (clear_is_not_found k)
visit_all-Found go (t ∷ ts) h d e k = elim (continue-Found (go t d) (visit_all go ts) e k) [
  | inl f ↦ h t (inl refl) d e f
  | inr (m, p, q) ↦ visit_all-Found go ts (λ u i. h u (inr i)) m e q
]

Way-append : {es : Edges} {a n t : String} → Way es a n → In t (targets es n) → Way es a t
Way-append (last_step i) m = then_step i (last_step m)
Way-append (then_step i w) m = then_step i (Way-append w m)

extend_ways :
    (es : Edges) (n t : String) (active : List String)
    → In t (targets es n)
    → ((a : String) → In a active → Way es a n)
    → (a : String) → In a (n ∷ active)
    → Way es a t
extend_ways es n t active m ways a (inl e) = subst (λ x. Way es x t) e (last_step m)
extend_ways es n t active m ways a (inr i) = Way-append (ways a i) m

no_fuel :
    (es : Edges) (n : String) (active done : List String) {p : Bool × List String}
    → visit zero es n active done ≡ some p
    → ⊥
unfolding visit
no_fuel es n active done h = none-some h

visit-IsCyclic :
    (fuel : ℕ) (es : Edges) (n : String) (active done e : List String)
    → ((a : String) → In a active → Way es a n)
    → visit fuel es n active done ≡ Found e
    → IsCyclic es
visit-IsCyclic zero es n active done e ways h = absurd (no_fuel es n active done h)
visit-IsCyclic (suc fuel) es n active done e ways h = elim (enters fuel es n active done) [
  | inl (q, k) ↦ (n, ways n (contains-In n active q))
  | inr (inl (q, k)) ↦ absurd (clear_is_not_found (sym k ∙ h))
  | inr (inr k) ↦
      let f = leave-Found n (below fuel es n active done) e (sym k ∙ h) in
      visit_all-Found (λ t d. visit fuel es t (n ∷ active) d) (targets es n)
        (λ t m d g p.
          visit-IsCyclic fuel es t (n ∷ active) d g (extend_ways es n t active m ways) p)
        done e f
]

-- done nodes lead to nodes that were done before them
abbrev IsOrdered : Edges → List String → Type 0
IsOrdered es [] = Unit
IsOrdered es (n ∷ d) = ((t : String) → In t (targets es n) → In t d) × IsOrdered es d

abbrev Grows : Edges → List String → List String → Type 0
Grows es d e = IsOrdered es e × ((m : String) → In m d → In m e)

visit_all-Grows :
    (es : Edges) (go : String → List String → Answer) (ts : List String)
    → ((t : String)
        → In t ts
        → (d e : List String) → IsOrdered es d
        → go t d ≡ Clear e
        → Grows es d e × In t e)
    → (d e : List String) → IsOrdered es d
    → visit_all go ts d ≡ Clear e
    → Grows es d e × ((t : String) → In t ts → In t e)
visit_all-Grows es go [] h d e o k =
    let same = same_done k in
    ((subst (IsOrdered es) same o, λ m i. subst (In m) same i), λ t i. absurd i)
visit_all-Grows es go (t ∷ ts) h d e o k =
    let (f, p, q) = continue-Clear (go t d) (visit_all go ts) e k in
    let ((a, b), c) = h t (inl refl) d f o p in
    let ((x, y), z) = visit_all-Grows es go ts (λ u i. h u (inr i)) f e a q in
    (
      (x, λ m i. y m (b m i)),
      λ u i. elim i [ inl g ↦ subst (λ v. In v e) g (y t c) | inr j ↦ z u j ],
    )

visit-Grows :
    (fuel : ℕ) (es : Edges) (n : String) (active done e : List String)
    → IsOrdered es done
    → visit fuel es n active done ≡ Clear e
    → Grows es done e × In n e
visit-Grows zero es n active done e o h = absurd (no_fuel es n active done h)
visit-Grows (suc fuel) es n active done e o h = elim (enters fuel es n active done) [
  | inl (q, k) ↦ absurd (found_is_not_clear (sym k ∙ h))
  | inr (inl (q, k)) ↦
      let same = same_done (sym k ∙ h) in
      (
        (subst (IsOrdered es) same o, λ m i. subst (In m) same i),
        subst (In n) same (contains-In n done q),
      )
  | inr (inr k) ↦
      let (f, p, g) = leave-Clear n (below fuel es n active done) e (sym k ∙ h) in
      let ((a, b), c) =
        visit_all-Grows es (λ t d. visit fuel es t (n ∷ active) d) (targets es n)
          (λ t m d e o p. visit-Grows fuel es t (n ∷ active) d e o p) done f o p in
      subst (λ e. Grows es done e × In n e) g (((c, a), λ m i. inr (b m i)), inl refl)
]

step-IsOrdered :
    (es : Edges) (d : List String) (n t : String)
    → IsOrdered es d
    → In n d
    → In t (targets es n)
    → In t d
step-IsOrdered es [] n t o i m = absurd i
step-IsOrdered es (k ∷ d) n t o (inl e) m = inr (o.0 t (subst (λ x. In t (targets es x)) (sym e) m))
step-IsOrdered es (k ∷ d) n t o (inr i) m = inr (step-IsOrdered es d n t o.1 i m)

Way-IsOrdered :
    (es : Edges) (d : List String) (n m : String) → IsOrdered es d → In n d → Way es n m → In m d
Way-IsOrdered es d n m o i (last_step t) = step-IsOrdered es d n m o i t
Way-IsOrdered es d n m o i (then_step {t = u} t w) =
    Way-IsOrdered es d u m o (step-IsOrdered es d n u o i t) w

first_step :
    (es : Edges) (n m : String) (d : List String) → IsOrdered es (n ∷ d) → Way es n m → In m d
first_step es n m d o (last_step i) = o.0 m i
first_step es n m d o (then_step {t = t} i w) = Way-IsOrdered es d t m o.1 (o.0 t i) w

no_cycle : (es : Edges) (d : List String) (n : String) → IsOrdered es d → In n d → Way es n n → ⊥
no_cycle es [] n o i w = i
no_cycle es (m ∷ d) n o (inr i) w = no_cycle es d n o.1 i w
no_cycle es (m ∷ d) n o (inl e) w =
    let back : Way es m m = subst (λ x. Way es x x) (sym e) w in
    no_cycle es d m o.1 (first_step es m m d o back) back

Way-source : {es : Edges} {n m : String} → Way es n m → In n (sources es)
Way-source {es} {n} (last_step {t = t} i) = targets-sources es n t i
Way-source {es} {n} (then_step {t = t} i w) = targets-sources es n t i

answer-Found : (r : Answer) → answer r ≡ some true → (d : List String) × (r ≡ Found d)
answer-Found none h = absurd (none-some h)
answer-Found (some (true, d)) h = (d, refl)
answer-Found (some (false, d)) h = absurd cc

answer-Clear : (r : Answer) → answer r ≡ some false → (d : List String) × (r ≡ Clear d)
answer-Clear none h = absurd (none-some h)
answer-Clear (some (false, d)) h = (d, refl)
answer-Clear (some (true, d)) h = absurd cc

-- The search reports a cycle exactly when the planned relations have one: a way of one relation or
-- more from some node back to it.
pub has_cycle_iff : (es : Edges) → (has_cycle es ≡ some true) ↔ IsCyclic es
unfolding has_cycle
has_cycle_iff es = (
  λ h.
      let (d, k) = answer-Found _ h in
      visit_all-Found (λ n d. visit (depth es) es n [] d) (sources es)
        (λ t m d e p. visit-IsCyclic (depth es) es t [] d e (λ a i. absurd i) p) [] d k,
  λ w.
      let (found, h) = has_cycle-total es in
      elim (Bool-cases found) [
        | inl q ↦ h ∙ ap some q
        | inr q ↦
            let (d, k) = answer-Clear _ (h ∙ ap some q) in
            let ((o, b), c) =
              visit_all-Grows es (λ n d. visit (depth es) es n [] d) (sources es)
                (λ t m d e o p. visit-Grows (depth es) es t [] d e o p) [] d tt k in
            absurd (no_cycle es d w.0 o (c w.0 (Way-source w.1)) w.1)
      ],
)
