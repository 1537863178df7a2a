-- ===== src/Lifecycle/DesignDrc.antt =====
-- rintel/design_lifecycle/design_drc.py: the design rules that the claims of a plan are checked
-- against. The sets of the rules are lists, and the planned relations are the list of their pairs.
-- A malformed value makes the rule raise, which the engine of rintel/drc/engine.py reports as a finding.
pub mod Cycle
pub mod Search
use rintel_core.Prelude.{
  ℕ, zero, suc, ◌+◌, String, Bool, true, false, ◌&&◌, ◌||◌, not, Option, none, some, List, [], ◌∷◌,
  ◌++◌, map, contains, any, all, keep, is_nil, Result, ok, err, raise_if, ◌>>◌, ◌>>=◌, length, Eq,
  ◌≡◌, ◌↔◌, arith, ◌==◌, string_eq, nat_eq, if◌then◌else◌,
}
use rintel_core.Prelude.Json.{
  Json, null, text, array, object, nil, Fields, end, get_field, is_truthy,
}
use rintel_core.Evidence.Wire.{Codec}
use rintel_core.Lifecycle.Models.{DesignDrc, Code, malformed_value, recursion_exceeded}
use rintel_core.Lifecycle.Values.{
  same_json, is_among, or_else, iterate, is_hashable, set_of, fields_of,
}

pub data Severity : Type 0 where
  error warning unknown_severity : Severity

pub data Status : Type 0 where
  violation warned unknown_status : Status

pub record Finding : Type 0 where
  pub status : Status
  pub message : String

-- `DrcContext.make`
unfoldable pub make : Severity → String → Finding
make error m = record { status = violation; message = m }
make warning m = record { status = warned; message = m }
make unknown_severity m = record { status = unknown_status; message = m }

-- a planned relation of the graph, from its source to its target
abbrev pub Edges : Type 0
Edges = List (String × String)

-- `graph.get(node, set())`
abbrev pub targets : Edges → String → List String
targets [] n = []
targets ((s, t) ∷ es) n = let rest = targets es n in if s == n then t ∷ rest else rest

-- the keys of the graph
abbrev pub sources : Edges → List String
sources es = map (λ e. e.0) es

-- whether a cycle was found, and the nodes that are done; nothing when the nesting is used up
abbrev pub Answer : Type 0
Answer = Option (Bool × List String)

-- the loop goes on when no cycle was found
abbrev pub continue : Answer → (List String → Answer) → Answer
continue none go = none
continue (some (true, done)) go = some (true, done)
continue (some (false, done)) go = go done

abbrev pub visit_all : (String → List String → Answer) → List String → List String → Answer
visit_all go [] done = some (false, done)
visit_all go (t ∷ ts) done = continue (go t done) (visit_all go ts)

abbrev pub leave : String → Answer → Answer
leave n none = none
leave n (some (true, done)) = some (true, done)
leave n (some (false, done)) = some (false, n ∷ done)

-- `visit`, with the number of calls that may be nested; `active` is the way from the root
unfoldable pub visit : ℕ → Edges → String → List String → List String → Answer
visit zero es n active done = none
visit (suc fuel) es n active done = elim (contains n active) [
  | true ↦ some (true, done)
  | false ↦ elim (contains n done) [
    | true ↦ some (false, done)
    | false ↦ leave n (visit_all (λ t d. visit fuel es t (n ∷ active) d) (targets es n) done)
  ]
]

-- a nesting that is deep enough for every graph of these relations
abbrev pub depth : Edges → ℕ
depth es = 2 + length es

abbrev pub answer : Answer → Option Bool
answer none = none
answer (some (found, done)) = some found

-- `any(visit(node, set(), done) for node in sorted(graph))`
unfoldable pub has_cycle : Edges → Option Bool
unfolding visit
has_cycle es = answer (visit_all (λ n d. visit (depth es) es n [] d) (sources es) [])

abbrev is_text_of : String → Option Json → Bool
is_text_of s (some (text t)) = t == s
is_text_of s _ = false

-- `claim.get(key)`, where it is true
abbrev given : String → Fields → Option Json
given k c = elim (get_field k c) [ none ↦ none | some v ↦ if is_truthy v then some v else none ]

abbrev is_given : String → Fields → Bool
is_given k c = elim (given k c) [ none ↦ false | some v ↦ true ]

-- the rules that the scope sets: the files, the forbidden kinds, and the forbidden directions
pub record Rules : Type 0 where
  pub allowed_files : List Json
  pub forbidden_kinds : List Json
  pub forbidden_directions : List (List Json)

abbrev value_at : String → Json → Fields → Json
value_at k d fs = or_else d (get_field k fs)

-- `{tuple(x) for x in directions}`
unfoldable pub tuples : List Json → Result Code (List (List Json))
unfolding set_of
tuples [] = ok []
tuples (j ∷ js) = do t ← set_of j; rest ← tuples js; ok (t ∷ rest)

unfoldable pub rules_of : Fields → Result Code Rules
unfolding tuples
rules_of scope = do
  files ← set_of (value_at "files" (array nil) scope)
  constraints ← fields_of (value_at "constraints" (object end) scope)
  kinds ← set_of (value_at "forbidden_relation_kinds" (array nil) constraints)
  given_directions ← iterate (value_at "forbidden_dependency_directions" (array nil) constraints)
  directions ← tuples given_directions
  ok (record { allowed_files = files; forbidden_kinds = kinds; forbidden_directions = directions })

abbrev is_direction : String → String → List Json → Bool
is_direction s t (text a ∷ text b ∷ []) = a == s && b == t
is_direction s t _ = false

abbrev when : Bool → Severity → String → List Finding
when true s m = make s m ∷ []
when false s m = []

module _ (codec : Codec) where
  abbrev str : Json → String
  str (text s) = s
  str j = codec.str_of j

  -- the relation that a claim adds to the graph
  abbrev relation_of : Fields → Edges
  relation_of c = elim (given "source" c) [
    | none ↦ []
    | some s ↦ elim (given "target" c) [ none ↦ [] | some t ↦ (str s, str t) ∷ [] ]
  ]

  abbrev endpoint_findings : Rules → Edges → List Finding
  endpoint_findings r [] = make error "planned relation target missing" ∷ []
  endpoint_findings r ((s, t) ∷ es) =
      when (any (is_direction s t) r.forbidden_directions) error "illegal dependency direction"

  unfoldable pub relation_findings : Rules → Fields → Result Code (List Finding)
  unfolding is_among
  relation_findings r c = do
    raise_if (not (is_hashable (value_at "relation_kind" null c))) malformed_value
    ok (
        endpoint_findings r (relation_of c)
        ++ (when (is_among (value_at "relation_kind" null c) r.forbidden_kinds) error
              "forbidden architecture relation"
            ++ when (not (is_given "justification" c) || not (is_given "support" c))
                unknown_severity "planned relation lacks justification or support"))

  abbrev is_null : Json → Bool
  is_null null = true
  is_null _ = false

  unfoldable pub is_mismatch : Json → Json → Bool
  unfolding same_json
  is_mismatch before planned =
      not (is_null before) && not (is_null planned) && not (same_json before planned)

  unfoldable pub interface_findings : Fields → List Finding
  unfolding is_mismatch
  interface_findings c =
      when
        (is_mismatch (value_at "base_signature" null c) (value_at "planned_signature" null c)
          && not (is_given "adapter" c))
        error "interface mismatch"

  -- the paths that a claim touches; without allowed files none is looked up
  unfoldable pub touch_findings : List Json → List Json → Result Code (List Finding)
  unfolding is_among
  touch_findings allowed paths = if is_nil allowed then ok [] else do
    raise_if (not (all is_hashable paths)) malformed_value
    ok (
        map (λ path. make error "scope contradiction")
          (keep (λ path. not (is_among path allowed)) paths))

  abbrev is_kind : String → Fields → Bool
  is_kind k c = is_text_of k (get_field "kind" c)

  -- the body of the loop over the claims
  unfoldable pub claim_findings : Rules → Fields → Result Code (List Finding)
  unfolding relation_findings interface_findings touch_findings iterate
  claim_findings r c = do
    relation ← if is_kind "planned_relation" c then relation_findings r c else ok []
    paths ← iterate (value_at "touches" (array nil) c)
    touched ← touch_findings r.allowed_files paths
    ok (
        relation
        ++ ((if is_kind "planned_interface" c then interface_findings c else []) ++ touched))

  unfoldable pub all_findings : Rules → List Fields → Result Code (List Finding)
  unfolding claim_findings
  all_findings r [] = ok []
  all_findings r (c ∷ cs) = do
    found ← claim_findings r c
    rest ← all_findings r cs
    ok (found ++ rest)

  -- `graph`
  unfoldable pub planned_relations : List Fields → Edges
  planned_relations [] = []
  planned_relations (c ∷ cs) =
      (if is_kind "planned_relation" c then relation_of c else []) ++ planned_relations cs

  abbrev cycle_findings : Option Bool → List Finding
  cycle_findings (some true) = make error "planned dependency cycle" ∷ []
  cycle_findings _ = []

  module _ (recursion_fails : Edges → Bool) (scope : Fields) where
    -- `LifecycleDesignRule.run`; the calls of `visit` may be nested too deeply for the interpreter
    unfoldable pub run_rule : List Fields → Result Code (List Finding)
    unfolding rules_of all_findings planned_relations has_cycle
    run_rule cs = do
      r ← rules_of scope
      found ← all_findings r cs
      raise_if (recursion_fails (planned_relations cs)) recursion_exceeded
      ok (found ++ cycle_findings (has_cycle (planned_relations cs)))

    -- `run_engine`: a rule that raises is reported as a finding
    abbrev pub run_engine : Result Code (List Finding) → List Finding
    run_engine (ok found) = found
    run_engine (err e) = make unknown_severity "rule crashed" ∷ []

    abbrev is_blocking : Status → Bool
    is_blocking violation = true
    is_blocking unknown_status = true
    is_blocking warned = false

    -- `run_design_drc`
    unfoldable pub run_design_drc : List Fields → DesignDrc
    unfolding run_rule
    run_design_drc cs = record {
      acceptable = not (any (λ (f : Finding). is_blocking f.status) (run_engine (run_rule cs)));
    }
