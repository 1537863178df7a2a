-- ===== src/Lifecycle/Repository/Interleaving.antt =====
-- Several callers of `apply_command` of rintel/design_lifecycle/service.py at once: each one reads a
-- change and computes the next version of it, and writes that at a later time.
use rintel_core.Prelude.{
  String, some, List, [], ◌∷◌, In, ok, inl, inr, ◌≡◌, refl, sym, ap, ◌∙◌, subst, arith, nat_eq,
  string_eq, some-inj,
}
use rintel_core.Prelude.Dict.{lookup}
use rintel_core.Prelude.Json.{Fields}
use rintel_core.Evidence.Wire.{Codec}
use rintel_core.Lifecycle.Models.{state_eq, DesignChange, Command}
use rintel_core.Lifecycle.Context.{Context}
use rintel_core.Lifecycle.Commands.{apply_command}
use rintel_core.Lifecycle.Commands.Soundness.{IsSound}
use rintel_core.Lifecycle.Commands.Steps.{apply_command-IsStep}
use rintel_core.Lifecycle.Repository.{Store, Opening, open_change, commit, get_change}
use rintel_core.Lifecycle.Repository.Ledger.{IsLedger}
use rintel_core.Lifecycle.Repository.History.{
  run_command-intro, get_change-ok, get_change-found, Step, opens, applies, Reach, beginning,
  continued, empty, IsNext-id, commit-ok, Reach-IsLedger,
}
use rintel_core.Lifecycle.Repository.Outcomes.{IsLater, Step-IsLater}

-- what a caller has read, and what it is about to write
pub record Pending : Type 0 where
  pub context : Context
  pub id : String
  pub command : Command
  pub before : DesignChange
  pub after : DesignChange

pub record World : Type 0 where
  pub store : Store
  pub pending : List Pending

pub data Move (codec : Codec) : World → World → Type 0 where
  reads :
      {w : World} (p : Pending)
      → get_change p.id w.store ≡ ok p.before
      → apply_command codec p.context p.before p.command ≡ ok p.after
      → Move codec w (record w { pending = p ∷ w.pending })
  writes :
      {w : World} {t : Store} (p : Pending)
      → In p w.pending
      → commit p.context p.command p.before p.after w.store ≡ ok t
      → Move codec w (record w { store = t })
  opens_one :
      {w : World} {t : Store} (x : Context) (id : String) (unknowns : List Fields) (o : Opening)
      (c : DesignChange)
      → open_change x id unknowns o w.store ≡ ok (c, t)
      → Move codec w (record w { store = t })

-- the callers' moves, in any order
pub data Moves (codec : Codec) (w : World) : World → Type 0 where
  rests : Moves codec w w
  moves : {u v : World} → Moves codec w u → Move codec u v → Moves codec w v

abbrev pub new_world : World
new_world = record { store = empty; pending = [] }

-- what was read is still the change, or an earlier version of it
abbrev IsBehind : Codec → Store → Pending → Type 0
IsBehind codec s p =
    (p.before.id ≡ p.id)
    × IsSound p.before
    × (apply_command codec p.context p.before p.command ≡ ok p.after)
    × ((c : DesignChange) × (lookup p.id s.changes ≡ some c) × IsLater p.before c)

abbrev IsCoherent : Codec → World → Type 0
IsCoherent codec w =
    Reach codec empty w.store × ((p : Pending) → In p w.pending → IsBehind codec w.store p)

IsLater-trans : (a b c : DesignChange) → IsLater a b → IsLater b c → IsLater a c
IsLater-trans a b c (inl e) h = subst (λ x. IsLater x c) (sym e) h
IsLater-trans a b c (inr n) (inl e) = subst (λ x. IsLater a x) e (inr n)
IsLater-trans a b c (inr n) (inr m) = inr (omega (arith, n.0, m.0), n.1)

Step-IsBehind :
    {codec : Codec} {s t : Store} (p : Pending)
    → Step codec s t
    → IsLedger s
    → IsBehind codec s p
    → IsBehind codec t p
Step-IsBehind p step l (a, b, e, (c, q, f)) =
    let (d, r, g) = Step-IsLater p.id c step l q in
    (a, b, e, (d, r, IsLater-trans p.before c d f g))

Step-IsCoherent :
    {codec : Codec} (w : World) (t : Store)
    → Step codec w.store t
    → IsCoherent codec w
    → IsCoherent codec (record w { store = t })
Step-IsCoherent w t step (r, h) =
    (continued r step, λ p m. Step-IsBehind p step (Reach-IsLedger r) (h p m))

same_version : (c d : DesignChange) → IsLater c d → d.version ≡ c.version → c ≡ d
same_version c d (inl e) h = e
same_version c d (inr n) h = absurd (omega (arith, n.0, h))

-- a write that succeeds is the command run at once
writes-Step :
    {codec : Codec} (p : Pending) (s t : Store)
    → IsBehind codec s p
    → commit p.context p.command p.before p.after s ≡ ok t
    → Step codec s t
writes-Step {codec} p s t (a, b, e, (c, q, f)) h =
    let ((old, g, v), w) = commit-ok p.context p.command p.before p.after s h in
    let (n, u, j) = apply_command-IsStep codec p.context p.before p.command p.after e b in
    let same : p.after.id ≡ p.id = IsNext-id p.before p.after n ∙ a in
    let row : old ≡ c = some-inj (sym g ∙ (ap (λ i. lookup i s.changes) same ∙ q)) in
    let still : p.before ≡ c =
      same_version p.before c f (subst (λ d. d.version ≡ p.before.version) row v) in
    applies p.context p.id p.command p.after (
      run_command-intro codec p.context p.id p.command s t p.before p.after
        (get_change-found p.id s (q ∙ ap some (sym still))) e h)

reads-IsBehind :
    (codec : Codec) (p : Pending) (s : Store)
    → get_change p.id s ≡ ok p.before
    → apply_command codec p.context p.before p.command ≡ ok p.after
    → IsLedger s
    → IsBehind codec s p
unfolding IsLedger
reads-IsBehind codec p s h k l =
    let q = get_change-ok p.id s h in
    let (e, i, m) = rw q at (l p.id) in (e, i, k, (p.before, q, inl refl))

Move-IsCoherent :
    {codec : Codec} {v w : World} → Move codec v w → IsCoherent codec v → IsCoherent codec w
Move-IsCoherent {codec} {v} (reads p h k) (r, i) = (
  r,
  λ q m. elim m [
    | inl e ↦
        subst (IsBehind codec v.store) e (reads-IsBehind codec p v.store h k (Reach-IsLedger r))
    | inr n ↦ i q n
  ],
)
Move-IsCoherent {codec} {v} (writes {t = t} p m h) (r, i) =
    Step-IsCoherent v t (writes-Step p v.store t (i p m) h) (r, i)
Move-IsCoherent {codec} {v} (opens_one {t = t} x id unknowns o c h) (r, i) =
    Step-IsCoherent v t (opens x id unknowns o c h) (r, i)

Moves-IsCoherent : {codec : Codec} {w : World} → Moves codec new_world w → IsCoherent codec w
Moves-IsCoherent rests = (beginning, λ p m. absurd m)
Moves-IsCoherent (moves h m) = Move-IsCoherent m (Moves-IsCoherent h)

-- Whatever callers read and write in whatever order, the store is one that whole commands reach, one
-- after the other: a write that succeeds has read the change that is in the store at that time.
pub Moves-Reach : {codec : Codec} {w : World} → Moves codec new_world w → Reach codec empty w.store
Moves-Reach h = (Moves-IsCoherent h).0
