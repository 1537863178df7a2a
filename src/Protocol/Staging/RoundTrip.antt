-- ===== src/Protocol/Staging/RoundTrip.antt =====
-- What is staged is read back as it was, if no fact holds a character that ends a line.
use mathlib.Core.List.{map, append_assoc, append-nil}
use rintel_core.Prelude.{
  ℕ, suc, ◌+◌, ◌≡◌, ◌≢◌, refl, sym, ap, ◌∙◌, inl, inr, true, false, Option, none, some, List, [],
  ◌∷◌, ◌++◌, length, length-append, All, Result, ok, err, ◌>>=◌, Result-cases, Bool-cases,
  Option-cases, arith, ◌==◌, nat_eq,
}
use rintel_core.Prelude.Dict.{insert}
use rintel_core.Prelude.Json.{Json}
use rintel_core.Protocol.Staging.{
  Directory, StagingArea, StagingError, invalid_json, is_boundary, split_lines, render,
  append_batch, load_all, facts, start, write_json,
}

-- batches with their sequence numbers, in the order in which they arrive
abbrev pub Batches : Type 0
Batches = List (ℕ × List Json)

abbrev pub all_rows : Batches → List Json
all_rows [] = []
all_rows ((n, rows) ∷ bs) = rows ++ all_rows bs

-- the sequence numbers count up from `n`
abbrev pub AreConsecutive : ℕ → Batches → Type 0
AreConsecutive n [] = Unit {0}
AreConsecutive n ((m, rows) ∷ bs) = (m ≡ n) × AreConsecutive (suc n) bs

abbrev pub IsLine : List ℕ → Type 0
IsLine l = All (λ c. is_boundary c ≡ false) l

split_lines-IsLine :
    (e : ℕ) (l t : List ℕ)
    → is_boundary e ≡ true
    → e ≢ 13
    → IsLine l
    → split_lines (l ++ (e ∷ t)) ≡ l ∷ split_lines t
unfolding split_lines
split_lines-IsLine e [] t b n h = ground (arith, b, n)
split_lines-IsLine e (c ∷ l) t b n h = ground (arith, split_lines-IsLine e l t b n h.1, h.0)

-- `reread` is what is left of a value: `json.dumps` sorts the keys of its dictionaries.
module _ (dumps : Json → List ℕ) (loads : List ℕ → Option Json) (reread : Json → Json) where
  -- `dumps` writes the row in one line, and `loads` reads it back
  abbrev pub IsReadable : Json → Type 0
  IsReadable j = IsLine (dumps j) × (loads (dumps j) ≡ some (reread j))

  load_all-render :
      (js : List Json)
      → All IsReadable js
      → load_all dumps loads (split_lines (render dumps loads js)) ≡ ok (map reread js)
  unfolding render load_all split_lines
  load_all-render [] h = refl
  load_all-render (j ∷ js) h =
      rw (split_lines-IsLine 10 (dumps j) (render dumps loads js) refl (ground arith) h.0.0)
        (ground (arith, h.0.1, load_all-render js h.1))

  render-append :
      (xs ys : List Json)
      → render dumps loads (xs ++ ys) ≡ render dumps loads xs ++ render dumps loads ys
  unfolding render
  render-append [] ys = refl
  render-append (x ∷ xs) ys =
      ap (λ l. dumps x ++ (10 ∷ l)) (render-append xs ys)
      ∙ sym (append_assoc (dumps x) (10 ∷ render dumps loads xs) (render dumps loads ys))

  unfoldable pub append_batches : Batches → StagingArea → Result StagingError StagingArea
  append_batches [] a = ok a
  append_batches ((n, rows) ∷ bs) a = append_batch dumps loads n rows a >>= append_batches bs

  -- the rows `done` are in the file, and are counted
  record IsStaged (n : ℕ) (done : List Json) (a : StagingArea) : Type 0 where
    pub directory : Directory
    pub is_active : a.active ≡ some directory
    pub written : directory.facts_text ≡ some (render dumps loads done)
    pub batches : a.batch_count ≡ n
    pub counted : a.fact_count ≡ length done

  restage :
      (n m : ℕ) (done rows : List Json) (a b : StagingArea)
      → n ≡ m
      → done ≡ rows
      → a ≡ b
      → IsStaged n done a
      → IsStaged m rows b
  restage n m done rows a b p q r s = rw (← p, ← q, ← r) s

  append_batch-IsStaged :
      (n m : ℕ) (done rows : List Json) (a b : StagingArea)
      → IsStaged n done a
      → append_batch dumps loads m rows a ≡ ok b
      → (m ≡ n) × IsStaged (suc n) (done ++ rows) b
  unfolding append_batch
  append_batch-IsStaged n m done rows a b s h = elim (Bool-cases (m == a.batch_count)) [
    | inl q ↦
        let d = record s.directory {
          facts_text = some (render dumps loads done ++ render dumps loads rows);
        } in
        let a' = record a {
          batch_count = suc a.batch_count;
          fact_count = a.fact_count + length rows;
          active = some d;
        } in
        let v : a' ≡ b = ground (arith, h, q, s.is_active, s.written) in
        (
          ground (arith, q, s.batches),
          restage (suc n) (suc n) (done ++ rows) (done ++ rows) a' b refl refl v (record {
            directory = d;
            is_active = refl;
            written = ap some (sym (render-append done rows));
            batches = ap suc s.batches;
            counted = rw length-append (ground (arith, s.counted));
          }),
        )
    | inr q ↦ absurd (ground (arith, h, q))
  ]

  append_batches-IsStaged :
      (n : ℕ) (done : List Json) (bs : Batches) (a b : StagingArea)
      → IsStaged n done a
      → append_batches bs a ≡ ok b
      → AreConsecutive n bs × IsStaged (n + length bs) (done ++ all_rows bs) b
  unfolding append_batches
  append_batches-IsStaged n done [] a b s h = (
    tt,
    restage n (n + 0) done (done ++ []) a b (ground arith) (sym (append-nil done))
        (ground (arith, h)) s,
  )
  append_batches-IsStaged n done ((m, rows) ∷ bs) a b s h =
      elim (Result-cases (append_batch dumps loads m rows a)) [
        | inl (c, e) ↦
            let (same, here) = append_batch-IsStaged n m done rows a c s e in
            let (later, there) =
              append_batches-IsStaged (suc n) (done ++ rows) bs c b here (ground (arith, h, e)) in
            (
              (same, later),
              restage (suc n + length bs) (n + suc (length bs)) ((done ++ rows) ++ all_rows bs)
                  (done ++ (rows ++ all_rows bs)) b b (ground arith)
                  (append_assoc done rows (all_rows bs)) refl there,
            )
        | inr (x, e) ↦ absurd (ground (arith, h, e))
      ]

  facts-IsStaged :
      (n : ℕ) (done : List Json) (a : StagingArea)
      → IsStaged n done a
      → All IsReadable done
      → facts dumps loads a ≡ ok (map reread done)
  unfolding facts
  facts-IsStaged n done a s h = ground (arith, s.is_active, s.written, load_all-render done h)

  start-IsStaged :
      (manifest : Json) (a b : StagingArea)
      → a.batch_count ≡ 0
      → a.fact_count ≡ 0
      → start manifest a ≡ ok b
      → IsStaged 0 [] b
  unfolding start write_json render insert
  start-IsStaged manifest a b p q h = elim (Option-cases a.active) [
    | inl e ↦
        let d : Directory = record {
          documents = insert "manifest.json" manifest [];
          facts_text = some [];
        } in
        let v : record a { active = some d } ≡ b = ground (arith, h, e) in
        rw (← v)
          (record { directory = d; is_active = refl; written = refl; batches = p; counted = q })
    | inr (d, e) ↦ absurd (ground (arith, h, e))
  ]

  -- In a staging area that was just started, batches are taken only if their sequence numbers count
  -- up from 0. The counters then hold the number of the batches and of all their facts, and, if
  -- each fact was written as one line that reads back, the facts read are those of the batches in order.
  pub append_batches-facts :
      (manifest : Json) (bs : Batches) (a b c : StagingArea)
      → a.batch_count ≡ 0
      → a.fact_count ≡ 0
      → start manifest a ≡ ok b
      → append_batches bs b ≡ ok c
      → All IsReadable (all_rows bs)
      → AreConsecutive 0 bs
        × (c.batch_count ≡ length bs)
        × (c.fact_count ≡ length (all_rows bs))
        × (facts dumps loads c ≡ ok (map reread (all_rows bs)))
  append_batches-facts manifest bs a b c p q h k r =
      let (order, s) = append_batches-IsStaged 0 [] bs b c (start-IsStaged manifest a b p q h) k in
      (
        order,
        ground (arith, s.batches),
        s.counted,
        facts-IsStaged (0 + length bs) (all_rows bs) c s r,
      )

  -- A fact whose JSON text holds a line separator, U+2028, is staged, and yet the facts cannot be
  -- read back, if what stands before the separator is not JSON by itself.
  pub facts_separator :
      (manifest j : Json) (l t : List ℕ) (a b c : StagingArea)
      → a.batch_count ≡ 0
      → a.fact_count ≡ 0
      → start manifest a ≡ ok b
      → append_batch dumps loads 0 (j ∷ []) b ≡ ok c
      → dumps j ≡ l ++ (8232 ∷ t)
      → IsLine l
      → loads l ≡ none
      → facts dumps loads c ≡ err invalid_json
  unfolding facts render load_all
  facts_separator manifest j l t a b c p q h k w i x =
      let s = (append_batch-IsStaged 0 0 [] (j ∷ []) b c (start-IsStaged manifest a b p q h) k).1 in
      let text : dumps j ++ (10 ∷ []) ≡ l ++ (8232 ∷ (t ++ (10 ∷ []))) =
        rw w (append_assoc l (8232 ∷ t) (10 ∷ [])) in
      let lines = split_lines-IsLine 8232 l (t ++ (10 ∷ [])) refl (ground arith) i in
      ground (arith, s.is_active, s.written, text, lines, x)
