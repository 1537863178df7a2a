-- ===== src/Lifecycle/Repository/Outcomes.antt =====
-- What the history of a design change promises to its readers: that a closed change has passed the
-- gates, that a terminal one stays, and that a command is not lost.
use rintel_core.Prelude.{
  ◌+◌, ◌≤◌, String, true, false, some, List, [], ◌∷◌, map, is_nil, ok, Bool-cases, inl, inr, ◌⊎◌,
  ◌≡◌, ◌≢◌, refl, sym, ap, ◌∙◌, subst, arith, ◌==◌, nat_eq, string_eq, eq_iff, some-inj, none-some,
}
use rintel_core.Prelude.Dict.{lookup, lookup-insert_self, lookup-insert_ne}
use rintel_core.Evidence.Wire.{Codec}
use rintel_core.Lifecycle.Models.{closed, state_eq, AcceptanceCriterion, DesignChange, Command}
use rintel_core.Lifecycle.Context.{Context}
use rintel_core.Lifecycle.Gates.{is_terminal, evaluate_command}
use rintel_core.Lifecycle.Commands.{apply_command, is_other_revision}
use rintel_core.Lifecycle.Commands.Exactness.{is_decided, evaluate_command-Returns}
use rintel_core.Lifecycle.Commands.Soundness.{IsSound, IsClosed}
use rintel_core.Lifecycle.Commands.Steps.{apply_command-IsStep, apply_command-act}
use rintel_core.Lifecycle.Repository.{Receipt, Store, receipt_of, commit, run_command}
use rintel_core.Lifecycle.Repository.Ledger.{IsLedger, IsWritten, update-total}
use rintel_core.Lifecycle.Repository.History.{
  get_change-found, run_command-intro, Step, opens, applies, Reach, empty, written_receipt,
  IsNext-id, IsNext-version, open_change-ok, run_command-ok, commit-ok, Reach-IsLedger,
}

-- A change that is closed, in whatever store the calls reach, has an acceptable design, a comparison
-- and a check of the layout that matched, for every required criterion a result that passed with
-- evidence, and a close receipt for its design revision, its evidence revision and its verification.
pub Reach-IsClosed :
    {codec : Codec} {s : Store} (id : String) (c : DesignChange)
    → Reach codec empty s
    → lookup id s.changes ≡ some c
    → c.state ≡ closed
    → IsClosed c
unfolding IsLedger IsSound
Reach-IsClosed id c h p e = let (same, i, m) = rw p at (Reach-IsLedger h id) in rw e at i

-- what a step does to a change that is there
abbrev pub IsLater : DesignChange → DesignChange → Type 0
IsLater c d = (c ≡ d) ⊎ ((c.version + 1 ≤ d.version) × (is_terminal c.state ≡ false))

other_row :
    (id : String) (d : DesignChange) (r : Receipt) (s t : Store) {c : DesignChange}
    → d.id ≢ id
    → IsWritten d r s t
    → lookup id s.changes ≡ some c
    → lookup id t.changes ≡ some c
other_row id d r s t n (e, f) p = rw e (lookup-insert_ne d.id id d s.changes n ∙ p)

own_row :
    (id : String) (d : DesignChange) (r : Receipt) (s t : Store)
    → d.id ≡ id
    → IsWritten d r s t
    → lookup id t.changes ≡ some d
own_row id d r s t e (f, g) = rw (← e, f) (lookup-insert_self d.id d s.changes)

command-IsLater :
    (codec : Codec) (x : Context) (id : String) (k : Command) (c d : DesignChange)
    → IsSound c
    → apply_command codec x c k ≡ ok d
    → IsLater c d
command-IsLater codec x id k c d i q =
    let (n, v, j) = apply_command-IsStep codec x c k d q i in
    let (a, b, e, f, g) = apply_command-act codec x c k q in
    inr (omega (arith, IsNext-version c d n), f)

pub Step-IsLater :
    {codec : Codec} {s t : Store} (id : String) (c : DesignChange)
    → Step codec s t
    → IsLedger s
    → lookup id s.changes ≡ some c
    → (d : DesignChange) × (lookup id t.changes ≡ some d) × IsLater c d
unfolding IsLedger
Step-IsLater {codec} {s} {t} id c (opens x other unknowns o d h) l p =
    let (e, n, i, (r, w, g, b, q, a, v)) = open_change-ok x other unknowns o s h in
    (
      c,
      other_row id d r s t (λ k. none-some (sym n ∙ (ap (λ i. lookup i s.changes) (sym e ∙ k) ∙ p)))
          w p,
      inl refl,
    )
Step-IsLater {codec} {s} {t} id c (applies x other k d h) l p =
    let (b, q, a, w) = run_command-ok codec x other k s h in
    let (e, i, m) = rw q at (l other) in
    let (n, v, j) = apply_command-IsStep codec x b k d a i in
    let same : d.id ≡ other = IsNext-id b d n ∙ e in
    elim (Bool-cases (other == id)) [
      | inl f ↦
          let one : other ≡ id = ground (arith, f, eq_iff other id) in
          let same_row : b ≡ c = some-inj (sym q ∙ (ap (λ i. lookup i s.changes) one ∙ p)) in
          (
            d,
            own_row id d _ s t (same ∙ one) w,
            subst (λ c. IsLater c d) same_row (command-IsLater codec x id k b d i a),
          )
      | inr f ↦ (
        c,
        other_row id d _ s t (λ g. ground (arith, f, eq_iff other id, sym same ∙ g)) w p,
        inl refl,
      )
    ]

-- A change that is closed or abandoned stays as it is: no call that returns writes to it.
pub Step-terminal :
    {codec : Codec} {s t : Store} (id : String) (c : DesignChange)
    → Step codec s t
    → IsLedger s
    → lookup id s.changes ≡ some c
    → is_terminal c.state ≡ true
    → lookup id t.changes ≡ some c
Step-terminal {codec} {s} {t} id c step l p h =
    let (d, q, later) = Step-IsLater id c step l p in
    elim later [ inl e ↦ q ∙ ap some (sym e) | inr n ↦ absurd (ground (arith, n.1, h)) ]

map-nil : {A B : Type 0} (f : A → B) (xs : List A) → map f xs ≡ [] → is_nil xs ≡ true
map-nil f [] h = refl
map-nil f (x ∷ xs) h = absurd cc

-- A change that was opened without an acceptance criterion is never closed, since its verification,
-- which the close asks for, stays empty.
pub Reach-closed_ne :
    {codec : Codec} {s : Store} (id : String) (c : DesignChange)
    → Reach codec empty s
    → lookup id s.changes ≡ some c
    → c.acceptance_criteria ≡ []
    → c.state ≢ closed
Reach-closed_ne id c h p n e =
    let ((v, m, answered), full, receipt) = Reach-IsClosed id c h p e in
    let none_left =
      map-nil _ c.verification (answered ∙ ap (map (λ (a : AcceptanceCriterion). a.id)) n) in
    absurd (ground (arith, none_left, full))

-- In a store that the calls reach, a plan, the beginning, a repair, an evaluation, the close or the
-- abandoning of a change is written when the gate has no reason against it and no other design revision
-- is named: neither the version nor the table of receipts stops it. Each claim of the plan has, if any,
-- a list, a dictionary or a text as its support and a dictionary as its expected evidence. For an
-- evaluation the expected evidence of the design is such too, the files and the symbols of the scope
-- are, if any, a text, a dictionary or a list without lists and dictionaries in it, and the check of
-- the layout returns.
pub run_command-Returns :
    {codec : Codec} {s : Store} (x : Context) (id : String) (k : Command) (c : DesignChange)
    → Reach codec empty s
    → lookup id s.changes ≡ some c
    → is_decided x c k.action ≡ true
    → evaluate_command x c k ≡ []
    → is_other_revision c k ≡ false
    → (d : DesignChange) × (t : Store) × (run_command codec x id k s ≡ ok (d, t))
      × (lookup id t.changes ≡ some d)
unfolding IsLedger commit receipt_of
run_command-Returns {codec} {s} x id k c h p a g o =
    let l = Reach-IsLedger h in
    let (e, i, m) = rw p at (l id) in
    let (d, q) = evaluate_command-Returns codec x c k a i g o in
    let (n, v, j) = apply_command-IsStep codec x c k d q i in
    let same : d.id ≡ id = IsNext-id c d n ∙ e in
    let (t, u) =
      update-total c d (written_receipt x k c d) s (ap (λ i. lookup i s.changes) same ∙ p) l refl
        refl in
    let (w, written) = commit-ok x k c d s u in
    (
      d,
      t,
      run_command-intro codec x id k s t c d (get_change-found id s p) q u,
      own_row id d _ s t same written,
    )
