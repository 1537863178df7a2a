-- ===== src/Lifecycle/Repository/Ledger.antt =====
-- The receipts of the design changes, over the writes of rintel/design_lifecycle/repository.py.
use rintel_core.Prelude.{
  ℕ, suc, ◌+◌, ◌≤◌, String, true, false, Option, none, some, List, [], ◌∷◌, any, keep, All, All-map,
  ok, Bool-cases, inl, inr, ◌≡◌, ◌≢◌, refl, sym, ◌∙◌, arith, ◌==◌, nat_eq, string_eq, eq_iff,
  ok-inj,
}
use rintel_core.Prelude.Dict.{lookup, insert as put, lookup-insert_self, lookup-insert_ne}
use rintel_core.Lifecycle.Models.{ChangeState, state_eq, DesignChange}
use rintel_core.Lifecycle.Commands.Soundness.{IsSound}
use rintel_core.Lifecycle.Repository.{
  Receipt, Store, with_change, update_row, insert_row, append_receipt, has_revision, is_same_entry,
  update, insert,
}

-- the receipts of a change, the last one first
abbrev pub trail : String → List Receipt → List Receipt
trail id rs = keep (λ (r : Receipt). r.change_id == id) rs

-- Receipts that lead to this version and state: they have the numbers from one up to the version, and
-- each begins in the state in which the one before it ended.
abbrev pub IsTrail : ℕ → Option ChangeState → List Receipt → Type 0
IsTrail version state [] = (version ≡ 0) × (state ≡ none)
IsTrail version state (r ∷ rs) =
    (r.sequence ≡ version)
    × (some r.state_after ≡ state)
    × ((n : ℕ) × (version ≡ suc n) × IsTrail n r.state_before rs)

abbrev pub IsKept : String → Option DesignChange → List Receipt → Type 0
IsKept id none rs = rs ≡ []
IsKept id (some c) rs = (c.id ≡ id) × IsSound c × IsTrail c.version (some c.state) rs

-- every change is sound and has its receipts
unfoldable pub IsLedger : Store → Type 0
IsLedger s = (id : String) → IsKept id (lookup id s.changes) (trail id s.receipts)

pub append_receipt-ok :
    (r : Receipt) (s : Store) {t : Store}
    → append_receipt r s ≡ ok t
    → record s { receipts = r ∷ s.receipts } ≡ t
unfolding append_receipt
append_receipt-ok r s h = elim (Bool-cases (any (is_same_entry r) s.receipts)) [
  | inl q ↦ absurd (ground (arith, rw q at h))
  | inr q ↦ ok-inj (rw q at h)
]

-- a store with the change and the receipt written to it
abbrev pub IsWritten : DesignChange → Receipt → Store → Store → Type 0
IsWritten c r s t = (t.changes ≡ put c.id c s.changes) × (t.receipts ≡ r ∷ s.receipts)

update_row-ok :
    (version : ℕ) (c : DesignChange) (r : Receipt) (s : Store) (o : Option DesignChange) {t : Store}
    → update_row version c r s o ≡ ok t
    → ((old : DesignChange) × (o ≡ some old) × (old.version ≡ version)) × IsWritten c r s t
update_row-ok version c r s none h = absurd cc
update_row-ok version c r s (some old) h = elim (Bool-cases (old.version == version)) [
  | inl e ↦
      let k = append_receipt-ok r (with_change c s) (rw e at h) in
      ((old, refl, ground (arith, e)), (rw (← k) refl, rw (← k) refl))
  | inr e ↦ absurd (ground (arith, rw e at h))
]

pub update-ok :
    (version : ℕ) (c : DesignChange) (r : Receipt) (s : Store) {t : Store}
    → update version c r s ≡ ok t
    → ((old : DesignChange) × (lookup c.id s.changes ≡ some old) × (old.version ≡ version))
      × IsWritten c r s t
unfolding update
update-ok version c r s h = update_row-ok version c r s (lookup c.id s.changes) h

insert_row-ok :
    (c : DesignChange) (r : Receipt) (s : Store) (o : Option DesignChange) {t : Store}
    → insert_row c r s o ≡ ok t
    → (o ≡ none) × IsWritten c r s t
insert_row-ok c r s (some old) h = absurd cc
insert_row-ok c r s none h = elim (Bool-cases (has_revision c.design_revision s)) [
  | inr e ↦ let k = append_receipt-ok r _ (rw e at h) in (refl, (rw (← k) refl, rw (← k) refl))
  | inl e ↦ absurd (ground (arith, rw e at h))
]

pub insert-ok :
    (c : DesignChange) (r : Receipt) (s : Store) {t : Store}
    → insert c r s ≡ ok t
    → (lookup c.id s.changes ≡ none) × IsWritten c r s t
unfolding insert
insert-ok c r s h = insert_row-ok c r s (lookup c.id s.changes) h

own-trail :
    (id : String) (r : Receipt) (rs : List Receipt)
    → r.change_id ≡ id
    → trail id (r ∷ rs) ≡ r ∷ trail id rs
own-trail id r rs e =
    let q : (r.change_id == id) ≡ true = ground (arith, e, eq_iff r.change_id id) in rw q refl

other-trail :
    (id : String) (r : Receipt) (rs : List Receipt)
    → r.change_id ≢ id
    → trail id (r ∷ rs) ≡ trail id rs
other-trail id r rs n =
    let q : (r.change_id == id) ≡ false = ground (arith, n, eq_iff r.change_id id) in rw q refl

-- Writing the next version of a change, with the receipt of it, keeps the ledger.
pub IsWritten-IsLedger :
    (c : DesignChange) (r : Receipt) (s t : Store)
    → IsWritten c r s t
    → r.change_id ≡ c.id
    → IsSound c
    → IsTrail c.version (some c.state) (r ∷ trail c.id s.receipts)
    → IsLedger s
    → IsLedger t
unfolding IsLedger
IsWritten-IsLedger c r s t (e, f) g i m l id = elim (Bool-cases (c.id == id)) [
  | inl q ↦
      let one : c.id ≡ id = ground (arith, q, eq_iff c.id id) in
      rw (← one, e, f, lookup-insert_self c.id c s.changes, own-trail c.id r s.receipts g)
        (refl, i, m)
  | inr q ↦
      let apart : c.id ≢ id = λ k. ground (arith, q, k, eq_iff c.id id) in
      rw
        (
          e,
          f,
          lookup-insert_ne c.id id c s.changes apart,
          other-trail id r s.receipts (λ k. apart (sym g ∙ k)),
        )
        (l id)
]

-- The receipts of a change have no number above its version.
IsTrail-bound :
    (version : ℕ) (state : Option ChangeState) (rs : List Receipt)
    → IsTrail version state rs
    → All (λ (r : Receipt). r.sequence ≤ version) rs
IsTrail-bound version state [] h = tt
IsTrail-bound version state (r ∷ rs) (e, f, (n, v, h)) = (
  omega (arith, e),
  All-map (λ (q : Receipt). q.sequence ≤ n) (λ (q : Receipt). q.sequence ≤ version) rs
      (λ q k. omega (arith, k, v)) (IsTrail-bound n r.state_before rs h),
)

fresh-trail :
    (r : Receipt) (id : String) (rs : List Receipt)
    → r.change_id ≡ id
    → All (λ (q : Receipt). q.sequence + 1 ≤ r.sequence) (trail id rs)
    → any (is_same_entry r) rs ≡ false
fresh-trail r id [] e h = refl
fresh-trail r id (q ∷ rs) e h = elim (Bool-cases (q.change_id == id)) [
  | inl t ↦
      let (a, b) = rw t at h in
      let rest = fresh-trail r id rs e b in
      let apart : (q.sequence == r.sequence) ≡ false = ground (arith, a) in
      rw (apart, rest) (ground arith)
  | inr t ↦
      let rest = fresh-trail r id rs e (rw t at h) in
      let apart : (q.change_id == r.change_id) ≡ false = rw e t in rw (apart, rest) refl
]

append_receipt-total :
    (r : Receipt) (id : String) (s : Store)
    → r.change_id ≡ id
    → All (λ (q : Receipt). q.sequence + 1 ≤ r.sequence) (trail id s.receipts)
    → (t : Store) × (append_receipt r s ≡ ok t)
unfolding append_receipt
append_receipt-total r id s e h =
    let q = fresh-trail r id s.receipts e h in rw q (record s { receipts = r ∷ s.receipts }, refl)

-- The write of the next version of the change that is in the store succeeds.
pub update-total :
    (c d : DesignChange) (r : Receipt) (s : Store)
    → lookup d.id s.changes ≡ some c
    → IsLedger s
    → r.change_id ≡ d.id
    → r.sequence ≡ suc c.version
    → (t : Store) × (update c.version d r s ≡ ok t)
unfolding update IsLedger
update-total c d r s p l e v =
    let (same, i, m) = rw p at (l d.id) in
    let t : (c.version == c.version) ≡ true = ground arith in
    let bound = IsTrail-bound c.version (some c.state) (trail d.id s.receipts) m in
    let (u, h) = append_receipt-total r d.id (with_change d s) e (
      All-map (λ (q : Receipt). q.sequence ≤ c.version) _ (trail d.id s.receipts)
        (λ q k. omega (arith, k, v)) bound) in
    (u, rw p (rw t h))
