-- ===== src/Lifecycle/Comparison.antt =====
-- `_evaluate` of rintel/design_lifecycle/service.py: the relations that a design expects against those
-- of the published graph. Sets are lists, whose order and repetitions nothing depends on.
pub mod Matching
use rintel_core.Prelude.{
  ℕ, String, Bool, true, false, ◌&&◌, ◌||◌, not, Option, none, some, List, [], ◌∷◌, ◌++◌, map,
  contains, any, keep, find_last, is_nil, Eq, ◌≡◌, ◌↔◌, arith, ◌==◌, string_eq, if◌then◌else◌,
  Result, ok, err, ◌>>=◌, ◌>>◌,
}
use rintel_core.Prelude.Json.{Json, text, array, object, nil, Fields, end, get_field, is_truthy}
use rintel_core.Evidence.Wire.{Codec}
use rintel_core.Lifecycle.Models.{
  DesignChange, Relation, ExpectedActual, Outcome, matched, missing_implementation,
  unexpected_implementation, unknown, Code,
}
use rintel_core.Lifecycle.Values.{or_else, set_of, dict_of}
use rintel_core.Lifecycle.Context.{Context, Edge, Node, implementation_of}

abbrev relation_beq : Relation → Relation → Bool
relation_beq a b = a.kind == b.kind && a.source == b.source && a.target == b.target

pub relation_beq_iff : (a b : Relation) → (relation_beq a b ≡ true) ↔ (a ≡ b)
relation_beq_iff a b = ground (
  arith,
  string_eq.same_iff a.kind b.kind,
  string_eq.same_iff a.source b.source,
  string_eq.same_iff a.target b.target,
)

instance abbrev pub relation_eq : Eq Relation
relation_eq = record { same = relation_beq; same_iff = relation_beq_iff }

-- an expected fact, by its key, and whether its `call_semantics` is `DIRECT_STATIC_CALL`
pub record Expected : Type 0 where
  pub relation : Relation
  pub direct_call : Bool

module _ (codec : Codec) where
  -- `str(value)`
  abbrev str : Json → String
  str (text s) = s
  str j = codec.str_of j

  -- `str(fact.get(key) or "")`
  abbrev text_at : String → Fields → String
  text_at k fs = elim (get_field k fs) [ none ↦ "" | some v ↦ if is_truthy v then str v else "" ]

  -- `fact.get("source") or fact.get("symbol")`
  abbrev source_at : Fields → String
  source_at fs = if text_at "source" fs == "" then text_at "symbol" fs else text_at "source" fs

  -- `_fact_key`
  unfoldable pub fact_key : Fields → Relation
  fact_key fs = record {
    kind = text_at "kind" fs;
    source = source_at fs;
    target = text_at "target" fs;
  }

  abbrev is_direct : Option Json → Bool
  is_direct (some (text s)) = s == "DIRECT_STATIC_CALL"
  is_direct _ = false

  abbrev expected_of : Result Code Fields → List Expected
  expected_of (ok fs) =
      record { relation = fact_key fs; direct_call = is_direct (get_field "call_semantics" fs) }
      ∷ []
  expected_of (err e) = []

  unfoldable pub expected_in : Option Json → List Expected
  unfolding dict_of
  expected_in none = []
  expected_in (some v) = if is_truthy v then expected_of (dict_of v) else []

  -- the expected evidence of the claims that have some
  unfoldable pub expected_facts : List Fields → List Expected
  unfolding expected_in
  expected_facts [] = []
  expected_facts (c ∷ cs) = expected_in (get_field "expected_evidence" c) ++ expected_facts cs

abbrev texts_in : List Json → List String
texts_in [] = []
texts_in (text s ∷ js) = s ∷ texts_in js
texts_in (j ∷ js) = texts_in js

abbrev texts_of : Result Code (List Json) → List String
texts_of (ok js) = texts_in js
texts_of (err e) = []

-- `set(scope.get(key, []))`
unfoldable pub scope_set : String → Fields → Result Code (List Json)
unfolding set_of
scope_set k scope = set_of (or_else (array nil) (get_field k scope))

-- the texts of it, since a node has texts
unfoldable pub scope_texts : String → Fields → List String
unfolding scope_set
scope_texts k scope = texts_of (scope_set k scope)

abbrev pub is_truthy_at : Option Json → Bool
is_truthy_at none = false
is_truthy_at (some v) = is_truthy v

-- `dict(...)` of the expected evidence of every claim that has some
unfoldable pub convert_expected : List Fields → Result Code (Unit {0})
unfolding dict_of
convert_expected [] = ok tt
convert_expected (c ∷ cs) =
    let rest = convert_expected cs in
    let v = or_else (object end) (get_field "expected_evidence" c) in
    if is_truthy_at (get_field "expected_evidence" c) then (dict_of v >>= λ fs. rest) else rest

-- the conversions of `_evaluate`, which raise for a value of another type
unfoldable pub convert_values : DesignChange → Result Code (Unit {0})
unfolding convert_expected scope_set
convert_values c = do
  convert_expected c.design_revision.expected_changes
  files ← scope_set "files" c.scope
  symbols ← scope_set "symbols" c.scope
  ok tt

-- a node that the scope of the change names
abbrev in_scope : List String → List String → Node → Bool
in_scope paths symbols n =
    contains n.path paths
    || contains n.id symbols
    || contains n.qname symbols
    || contains n.name symbols

abbrev is_named : String → Bool
is_named s = not (s == "")

abbrev with_calls : List String → List String → List String
with_calls kinds sources = if is_nil kinds && not (is_nil sources) then "CALLS" ∷ [] else kinds

module _ (x : Context) (c : DesignChange) (revision : String) (expected : List Expected) where
  -- the sources and the kinds of the relations that are searched
  unfoldable pub searched_sources : List String
  unfolding scope_texts
  searched_sources =
      map (λ (e : Expected). e.relation.source) expected
      ++ (map (λ (r : Relation). r.source) (implementation_of c).actual_evidence
          ++ map (λ (n : Node). n.id)
              (keep (in_scope (scope_texts "files" c.scope) (scope_texts "symbols" c.scope))
                (x.nodes revision)))

  unfoldable pub searched_kinds : List String
  unfolding searched_sources
  searched_kinds =
      with_calls
        (map (λ (e : Expected). e.relation.kind) expected
          ++ map (λ (r : Relation). r.kind) (implementation_of c).actual_evidence)
        searched_sources

  abbrev pub is_searched : Edge → Bool
  is_searched e =
      contains e.relation.kind (keep is_named searched_kinds)
      && contains e.relation.source (keep is_named searched_sources)

  -- the rows of the published graph in the searched domain
  unfoldable pub actual_relations : List Relation
  actual_relations = map (λ (e : Edge). e.relation) (keep is_searched (x.edges revision))

  abbrev pub base_relations : List Relation
  base_relations = map (λ (e : Edge). e.relation) (x.edges c.base_canonical_revision)

  abbrev pub expected_keys : List Relation
  expected_keys = map (λ (e : Expected). e.relation) expected

  unfoldable pub missing_keys : List Relation
  missing_keys = keep (λ r. not (contains r actual_relations)) expected_keys

  unfoldable pub unexpected_keys : List Relation
  unexpected_keys =
      keep (λ r. not (contains r expected_keys) && not (contains r base_relations)) actual_relations

  abbrev is_direct_call : Relation → Bool
  is_direct_call r = elim (find_last (λ (e : Expected). e.relation == r) expected) [
    | none ↦ false
    | some e ↦ e.direct_call
  ]

  -- whether the absence of an expected relation is proved by a certificate
  abbrev pub is_proved_absent : Relation → Bool
  is_proved_absent r = is_direct_call r && x.absence_certified revision r

  unfoldable pub outcome_of : List Relation → List Relation → Outcome
  outcome_of absent additional =
      if not (is_nil (keep (λ r. not (is_proved_absent r)) absent))
      then unknown
      else if not (is_nil (keep is_proved_absent absent))
      then missing_implementation
      else if not (is_nil additional)
      then unexpected_implementation
      else matched

  unfoldable pub compare : ExpectedActual
  unfolding missing_keys unexpected_keys outcome_of searched_sources searched_kinds
  compare = record {
    outcome = outcome_of missing_keys unexpected_keys;
    missing = keep is_proved_absent missing_keys;
    unproven_absence = keep (λ r. not (is_proved_absent r)) missing_keys;
    unexpected = unexpected_keys;
    sources = searched_sources;
    kinds = searched_kinds;
    final_canonical_revision = revision;
  }

-- `_evaluate`, where the conversions go through
unfoldable pub evaluate : Codec → Context → DesignChange → String → ExpectedActual
unfolding compare
evaluate codec x c revision =
    compare x c revision (expected_facts codec c.design_revision.expected_changes)
