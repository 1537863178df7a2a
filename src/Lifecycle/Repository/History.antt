-- ===== src/Lifecycle/Repository/History.antt =====
-- The stores that the calls of rintel/design_lifecycle/service.py reach, and what holds in each.
use rintel_core.Prelude.{
  ℕ, suc, String, not, Option, none, some, List, [], ◌∷◌, ok, ◌≡◌, refl, sym, ap, ◌∙◌, subst,
  nat_eq, string_eq, after, after_raise, ok-inj, ok-subst, is_blank,
}
use rintel_core.Prelude.Dict.{lookup}
use rintel_core.Prelude.Json.{Fields}
use rintel_core.Evidence.Wire.{Codec}
use rintel_core.Lifecycle.Models.{
  state_eq, DesignChange, Command, invalid_base_revision, intent_required,
}
use rintel_core.Lifecycle.Context.{Context}
use rintel_core.Lifecycle.Commands.{apply_command}
use rintel_core.Lifecycle.Commands.Soundness.{IsSound, IsNext}
use rintel_core.Lifecycle.Commands.Steps.{apply_command-IsStep}
use rintel_core.Lifecycle.Repository.{
  Receipt, Store, Opening, insert_fresh, fresh, is_based, open_change, receipt_of, command_name,
  commit, get_change, found, run_command,
}
use rintel_core.Lifecycle.Repository.Ledger.{
  IsLedger, IsTrail, IsWritten, trail, update-ok, insert-ok, IsWritten-IsLedger,
}

-- a new change and its receipt
abbrev pub IsOpening : String → DesignChange → Store → Store → Type 0
IsOpening id c s t =
    (c.id ≡ id)
    × (lookup id s.changes ≡ none)
    × IsSound c
    × ((r : Receipt) × IsWritten c r s t
        × (r.change_id ≡ id)
        × (r.state_before ≡ none)
        × (r.sequence ≡ 1)
        × (r.state_after ≡ c.state)
        × (c.version ≡ 1))

abbrev IsOpened : String → Store → DesignChange × Store → Type 0
IsOpened id s (c, t) = IsOpening id c s t

pub open_change-ok :
    (x : Context) (id : String) (unknowns : List Fields) (o : Opening) (s : Store)
    {p : DesignChange × Store}
    → open_change x id unknowns o s ≡ ok p
    → IsOpened id s p
unfolding open_change receipt_of IsSound
open_change-ok x id unknowns o s h =
    let p = after_raise (not (is_based x o)) invalid_base_revision _ h in
    let q = after_raise (is_blank o.intent) intent_required _ p.1 in
    let (u, k, l) = after (insert_fresh x (fresh x id unknowns o) o.actor s) _ q.1 in
    let (a, w) = insert-ok (fresh x id unknowns o) _ s k in
    ok-subst (IsOpened id s) l (
      refl,
      a,
      tt,
      (
        receipt_of x.now (fresh x id unknowns o) 1 "open_change" o.actor none,
        w,
        refl,
        refl,
        refl,
        refl,
        refl,
      ),
    )

found-ok : (o : Option DesignChange) {c : DesignChange} → found o ≡ ok c → o ≡ some c
found-ok none h = absurd cc
found-ok (some d) h = ap some (ok-inj h)

pub get_change-ok :
    (id : String) (s : Store) {c : DesignChange}
    → get_change id s ≡ ok c
    → lookup id s.changes ≡ some c
unfolding get_change
get_change-ok id s h = found-ok (lookup id s.changes) h

pub get_change-found :
    (id : String) (s : Store) {c : DesignChange}
    → lookup id s.changes ≡ some c
    → get_change id s ≡ ok c
unfolding get_change
get_change-found id s h = ap found h

-- the receipt of a command
abbrev pub written_receipt : Context → Command → DesignChange → DesignChange → Receipt
written_receipt x k before after =
    receipt_of x.now after (suc before.version) (command_name k.action) k.actor (some before.state)

pub commit-ok :
    (x : Context) (k : Command) (before after : DesignChange) (s : Store) {t : Store}
    → commit x k before after s ≡ ok t
    → ((old : DesignChange) × (lookup after.id s.changes ≡ some old)
        × (old.version ≡ before.version))
      × IsWritten after (written_receipt x k before after) s t
unfolding commit
commit-ok x k before after s h = update-ok before.version after _ s h

-- a command that read `before` and wrote what it made of it
abbrev pub IsRun : Codec → Context → String → Command → Store → DesignChange × Store → Type 0
IsRun codec x id k s (c, t) =
    (before : DesignChange) × (lookup id s.changes ≡ some before)
    × (apply_command codec x before k ≡ ok c)
    × IsWritten c (written_receipt x k before c) s t

pub run_command-ok :
    (codec : Codec) (x : Context) (id : String) (k : Command) (s : Store) {p : DesignChange × Store}
    → run_command codec x id k s ≡ ok p
    → IsRun codec x id k s p
unfolding run_command
run_command-ok codec x id k s h =
    let (before, p, l) = after (get_change id s) _ h in
    let (c, q, m) = after (apply_command codec x before k) _ l in
    let (t, r, n) = after (commit x k before c s) _ m in
    ok-subst (IsRun codec x id k s) n
      (before, get_change-ok id s p, q, (commit-ok x k before c s r).1)

pub run_command-intro :
    (codec : Codec) (x : Context) (id : String) (k : Command) (s t : Store) (c d : DesignChange)
    → get_change id s ≡ ok c
    → apply_command codec x c k ≡ ok d
    → commit x k c d s ≡ ok t
    → run_command codec x id k s ≡ ok (d, t)
unfolding run_command
run_command-intro codec x id k s t c d p q r = rw (p, q, r) refl

-- a call that returns
pub data Step (codec : Codec) : Store → Store → Type 0 where
  opens :
      {s t : Store} (x : Context) (id : String) (unknowns : List Fields) (o : Opening)
      (c : DesignChange)
      → open_change x id unknowns o s ≡ ok (c, t)
      → Step codec s t
  applies :
      {s t : Store} (x : Context) (id : String) (k : Command) (c : DesignChange)
      → run_command codec x id k s ≡ ok (c, t)
      → Step codec s t

pub data Reach (codec : Codec) (s : Store) : Store → Type 0 where
  beginning : Reach codec s s
  continued : {t u : Store} → Reach codec s t → Step codec t u → Reach codec s u

-- the store without a change
abbrev pub empty : Store
empty = record { changes = []; revisions = []; receipts = [] }

pub written-IsTrail :
    (x : Context) (k : Command) (c d : DesignChange) (rs : List Receipt)
    → d.version ≡ suc c.version
    → IsTrail c.version (some c.state) rs
    → IsTrail d.version (some d.state) (written_receipt x k c d ∷ rs)
unfolding receipt_of
written-IsTrail x k c d rs e h = (sym e, refl, (c.version, e, h))

IsOpening-IsLedger :
    (id : String) (c : DesignChange) (s t : Store) → IsOpening id c s t → IsLedger s → IsLedger t
unfolding IsLedger
IsOpening-IsLedger id c s t (e, n, i, (r, w, g, b, q, a, v)) l =
    let none_yet : trail id s.receipts ≡ [] = rw n at (l id) in
    IsWritten-IsLedger c r s t w (g ∙ sym e) i
      (
        q ∙ sym v,
        ap some a,
        (
          0,
          v,
          subst (λ i. IsTrail 0 r.state_before (trail i s.receipts)) (sym e)
              (subst (IsTrail 0 r.state_before) (sym none_yet) (refl, b)),
        ),
      )
      l

pub IsNext-id : {n : ℕ} (c d : DesignChange) → IsNext n c d → d.id ≡ c.id
IsNext-id c d h = ap (λ f. f.0) h

pub IsNext-version : {n : ℕ} (c d : DesignChange) → IsNext n c d → d.version ≡ suc c.version
IsNext-version c d h = ap (λ f. f.1) h

pub command-IsLedger :
    (codec : Codec) (x : Context) (id : String) (k : Command) (c d : DesignChange) (s t : Store)
    → lookup id s.changes ≡ some c
    → apply_command codec x c k ≡ ok d
    → IsWritten d (written_receipt x k c d) s t
    → IsLedger s
    → IsLedger t
unfolding IsLedger receipt_of
command-IsLedger codec x id k c d s t p q w l =
    let (e, i, m) = rw p at (l id) in
    let (n, v, j) = apply_command-IsStep codec x c k d q i in
    let same : d.id ≡ id = IsNext-id c d n ∙ e in
    IsWritten-IsLedger d (written_receipt x k c d) s t w refl j
      (written-IsTrail x k c d (trail d.id s.receipts) (IsNext-version c d n)
        (subst (λ i. IsTrail c.version (some c.state) (trail i s.receipts)) (sym same) m))
      l

pub Step-IsLedger : {codec : Codec} {s t : Store} → Step codec s t → IsLedger s → IsLedger t
Step-IsLedger {codec} {s} {t} (opens x id unknowns o c h) l =
    IsOpening-IsLedger id c s t (open_change-ok x id unknowns o s h) l
Step-IsLedger {codec} {s} {t} (applies x id k d h) l =
    let (c, p, q, w) = run_command-ok codec x id k s h in
    command-IsLedger codec x id k c d s t p q w l

-- In every store that the calls reach, whatever commands were given and whatever the graph, the jobs
-- and the receipts said at each of them, every change is sound, and its receipts are numbered from
-- one up to its version, each beginning in the state in which the one before it ended.
pub Reach-IsLedger : {codec : Codec} {s : Store} → Reach codec empty s → IsLedger s
unfolding IsLedger lookup
Reach-IsLedger beginning = λ id. refl
Reach-IsLedger (continued h step) = Step-IsLedger step (Reach-IsLedger h)
