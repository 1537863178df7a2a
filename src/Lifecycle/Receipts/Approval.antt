-- ===== src/Lifecycle/Receipts/Approval.antt =====
-- An approval that is recorded, and the gate of the close that asks for it.
use rintel_core.Prelude.{
  ℕ, ◌+◌, ◌≤◌, String, Bool, true, false, not, Option, none, some, some-inj, none-some, List, [],
  ◌∷◌, ◌++◌, In, In-keep, keep, last, leb, Result, ok, err, after, after_raise, ok-inj, Bool-cases,
  Option-cases, inl, inr, ◌≡◌, ◌≢◌, refl, subst, sym, ap, ◌∙◌, arith, eq_iff, ◌==◌, nat_eq,
  string_eq,
}
use rintel_core.Lifecycle.Models.{
  verified, state_eq, DesignChange, close_change, Command, Code, stale_preflight, terminal_change,
}
use rintel_core.Lifecycle.Context.{Context, ApprovalReceipt}
use rintel_core.Lifecycle.Gates.{
  is_terminal, is_approved_by, needs_approval, assert_closable, failed_checks, refuse_close,
  is_approved, is_approval, latest_approval,
}
use rintel_core.Prelude.Json.{Fields}
use rintel_core.Evidence.Wire.{Codec}
use rintel_core.Lifecycle.Context.{require_actual_current}
use rintel_core.Lifecycle.Gates.{CloseRefusal}
use rintel_core.Lifecycle.Commands.{act, close, closable, with_code, apply_command}
use rintel_core.Lifecycle.Commands.Soundness.{require_state-In}
use rintel_core.Lifecycle.Commands.Steps.{apply_command-act}
use rintel_core.Lifecycle.Receipts.{
  Authorization, is_authorized, if_authorized, authorized, approval_authorization, approval_of,
  next_time, record_approval, file_receipt, IsSorted,
}

last-bound :
    (r q : ApprovalReceipt) (qs : List ApprovalReceipt)
    → IsSorted (q ∷ qs)
    → next_time 0 (last (q ∷ qs)) ≤ r.timestamp
    → q.timestamp + 1 ≤ r.timestamp
last-bound r q [] h k = ground (arith, k)
last-bound r q (p ∷ qs) ((a, b), s) k = let rest = last-bound r p qs s k in omega (arith, a, rest)

-- a receipt that is later than the last one is filed at the end
file_receipt-append :
    (r : ApprovalReceipt) (qs : List ApprovalReceipt)
    → IsSorted qs
    → next_time 0 (last qs) ≤ r.timestamp
    → file_receipt r qs ≡ qs ++ (r ∷ [])
file_receipt-append r [] s h = refl
file_receipt-append r (q ∷ []) s h =
    let k = last-bound r q [] s h in
    let t : leb q.timestamp r.timestamp ≡ true = ground (arith, k) in rw t refl
file_receipt-append r (q ∷ p ∷ qs) s h =
    let k = last-bound r q (p ∷ qs) s h in
    let t : leb q.timestamp r.timestamp ≡ true = ground (arith, k) in
    rw t (ap (λ l. q ∷ l) (file_receipt-append r (p ∷ qs) s.1 h))

last-append : {A : Type 0} (xs : List A) (x : A) → last (xs ++ (x ∷ [])) ≡ some x
last-append [] x = refl
last-append (y ∷ []) x = refl
last-append (y ∷ z ∷ xs) x = last-append (z ∷ xs) x

keep-append :
    {A : Type 0} (p : A → Bool) (xs : List A) (x : A)
    → p x ≡ true
    → keep p (xs ++ (x ∷ [])) ≡ keep p xs ++ (x ∷ [])
keep-append p [] x h = rw h refl
keep-append p (y ∷ xs) x h = elim (Bool-cases (p y)) [
  | inl q ↦ rw q (ap (λ l. y ∷ l) (keep-append p xs x h))
  | inr q ↦ rw q (keep-append p xs x h)
]

next_time-bound : (now : ℕ) (o : Option ApprovalReceipt) → next_time 0 o ≤ next_time now o
next_time-bound now none = omega arith
next_time-bound now (some r) = ground arith

if_authorized-some :
    (o : Option Authorization) {a : Authorization}
    → if_authorized o ≡ some a
    → is_authorized a ≡ true
if_authorized-some none h = absurd (none-some h)
if_authorized-some (some b) {a} h = elim (Bool-cases (is_authorized b)) [
  | inl q ↦ let e : b ≡ a = some-inj (rw q at h) in rw (← e) q
  | inr q ↦ absurd (none-some (rw q at h))
]

authorized-some : (o : Option Authorization) {a : Authorization} → authorized o ≡ ok a → o ≡ some a
authorized-some none h = absurd cc
authorized-some (some b) h = ap some (ok-inj h)

authorization-is_authorized :
    (find : Option (String → DesignChange → Option Authorization)) (c : DesignChange)
    (identity : String) {a : Authorization}
    → authorized (approval_authorization find c identity) ≡ ok a
    → is_authorized a ≡ true
unfolding approval_authorization
authorization-is_authorized none c identity h = absurd cc
authorization-is_authorized (some find) c identity h = elim (Bool-cases (identity == "")) [
  | inl q ↦ absurd (ground (arith, rw q at h))
  | inr q ↦ if_authorized-some (find identity c) (authorized-some _ (rw q at h))
]

approval_of-is_approval :
    (x : Context) (c : DesignChange) (a : Authorization)
    → is_authorized a ≡ true
    → is_approval c (approval_of x c "APPROVE" a) ≡ true
approval_of-is_approval x c a g = ground (
  arith,
  g,
  eq_iff "" a.principal_id,
  eq_iff a.principal_id "",
  eq_iff "" a.auth_session_id,
  eq_iff a.auth_session_id "",
  eq_iff "" a.instance_id,
  eq_iff a.instance_id "",
)

filed-is_approved :
    (x : Context) (c : DesignChange) (a : Authorization)
    → IsSorted x.approval_receipts
    → is_authorized a ≡ true
    → is_approved
        (record x {
          approval_receipts = file_receipt (approval_of x c "APPROVE" a) x.approval_receipts;
        })
        c
      ≡ true
unfolding is_approved
filed-is_approved x c a s g =
    let r = approval_of x c "APPROVE" a in
    let here : (c.design_revision.id == c.design_revision.id) ≡ true =
      ground (arith, eq_iff c.design_revision.id c.design_revision.id) in
    let is_ours = λ (r : ApprovalReceipt). r.design_revision == c.design_revision.id in
    let filed =
      file_receipt-append r x.approval_receipts s
        (next_time-bound x.now (last x.approval_receipts)) in
    let latest : last (keep is_ours (file_receipt r x.approval_receipts)) ≡ some r =
      ap (λ l. last (keep is_ours l)) filed
      ∙ ap last (keep-append is_ours x.approval_receipts r here)
      ∙ last-append (keep is_ours x.approval_receipts) r in
    ap (is_approved_by c) latest ∙ approval_of-is_approval x c a g

-- An approval that is recorded opens the gate of the close for the change as it is: filed behind the
-- approvals that were there, it is the latest one for its design revision and this version, and it
-- names the approver, whatever the clock said.
pub record_approval-is_approved :
    (x : Context) (find : Option (String → DesignChange → Option Authorization)) (c : DesignChange)
    (identity : String) (version : ℕ) (r : ApprovalReceipt)
    → IsSorted x.approval_receipts
    → record_approval x find c identity "APPROVE" version ≡ ok r
    → is_approved (record x { approval_receipts = file_receipt r x.approval_receipts }) c ≡ true
unfolding record_approval
record_approval-is_approved x find c identity version r s h =
    let p = after_raise (is_terminal c.state) terminal_change _ h in
    let q = after_raise (not (c.version == version)) stale_preflight _ p.1 in
    let (a, k, l) = after (authorized (approval_authorization find c identity)) _ q.1 in
    let e = ok-inj l in
    let g = authorization-is_authorized find c identity k in
    subst
      (λ r.
        is_approved (record x { approval_receipts = file_receipt r x.approval_receipts }) c ≡ true)
      e (filed-is_approved x c a s g)

refuse_close-ok : (es : List Code) (b : Bool) {u : Unit {0}} → refuse_close es b ≡ ok u → b ≡ false
refuse_close-ok (e ∷ es) b h = absurd cc
refuse_close-ok [] true h = absurd cc
refuse_close-ok [] false h = refl

with_code-ok : (r : Result CloseRefusal (Unit {0})) {u : Unit {0}} → with_code r ≡ ok u → r ≡ ok tt
with_code-ok (ok u) h = refl
with_code-ok (err e) h = absurd cc

last-In : {A : Type 0} (xs : List A) (x : A) → last xs ≡ some x → In x xs
last-In [] x h = absurd (none-some h)
last-In (y ∷ []) x h = inl (some-inj h)
last-In (y ∷ z ∷ xs) x h = inr (last-In (z ∷ xs) x h)

latest-design :
    (x : Context) (c : DesignChange) (r : ApprovalReceipt)
    → latest_approval x c ≡ some r
    → r.design_revision ≡ c.design_revision.id
latest-design x c r h =
    (eq_iff r.design_revision c.design_revision.id).0
      (In-keep (λ (r : ApprovalReceipt). r.design_revision == c.design_revision.id)
        x.approval_receipts (last-In _ r h)).1

-- A close of a change whose scope asks for an approval goes through only if the latest approval of its
-- design revision is by a named principal in a named session of a named instance, approves, and is of
-- the very version that is closed.
pub close-is_approved :
    (codec : Codec) (x : Context) (c : DesignChange) (k : Command) (rules : Fields)
    (d : DesignChange)
    → apply_command codec x c k ≡ ok d
    → k.action ≡ close_change rules
    → needs_approval c ≡ true
    → (r : ApprovalReceipt) × (latest_approval x c ≡ some r)
      × (r.decision ≡ "APPROVE")
      × (r.change_version ≡ c.version)
      × (r.design_revision ≡ c.design_revision.id)
      × (r.principal_id ≢ "")
      × (r.auth_session_id ≢ "")
      × (r.instance_id ≢ "")
unfolding act close assert_closable is_approved
close-is_approved codec x c k rules d h e n =
    let (g, s, o, t, a) = apply_command-act codec x c k h in
    let b : close codec x c rules ≡ ok d = rw e at a in
    let p = require_state-In c (verified ∷ []) _ b in
    let (u, q, l) = after (require_actual_current x c) _ p.1 in
    let (v, w, m) = after (closable codec x c) _ l in
    let f = refuse_close-ok (failed_checks c) _ (with_code-ok _ w) in
    let yes : is_approved x c ≡ true = ground (arith, f, n) in
    elim (Option-cases (latest_approval x c)) [
      | inl i ↦ absurd (ground (arith, yes, i))
      | inr (r, i) ↦
          let j : is_approval c r ≡ true = sym (ap (is_approved_by c) i) ∙ yes in
          (
            r,
            i,
            ground (arith, j, eq_iff r.decision "APPROVE"),
            ground (arith, j),
            latest-design x c r i,
            λ e. ground (arith, j, e, eq_iff r.principal_id ""),
            λ e. ground (arith, j, e, eq_iff r.auth_session_id ""),
            λ e. ground (arith, j, e, eq_iff r.instance_id ""),
          )
    ]
