-- ===== src/Evidence/Canonical/Identity.antt =====
-- rintel/provider_arch/canonical.py, the first loop of `_reconcile_raw_candidates`: the identities
-- of a candidate are resolved, or it stays unresolved. The resolver is a parameter, as it is there.
use rintel_core.Prelude.{
  String, Bool, true, false, ◌&&◌, ◌||◌, not, Option, none, some, List, [], ◌∷◌, Result, ok, err,
  ◌>>=◌, ◌==◌, nat_eq, string_eq, option_eq, if◌then◌else◌,
}
use rintel_core.Prelude.Json.{Json, null, text, array, Items, nil, cons, texts, or_null}
use rintel_core.Evidence.Contract.{
  exact, candidate_set, truth_eq, coverage_eq, resolution_eq, modality_eq,
}
use rintel_core.Evidence.Wire.{Codec}
use rintel_core.Evidence.Candidate.{EvidenceCandidate}

pub data Role : Type 0 where
  subject_role object_role : Role

-- What a resolver raises: `KeyError` and `ValueError` are caught, `IdentityAdmissionError` is not.
pub data IdentityError : Type 0 where
  not_resolvable identity_denied : IdentityError

abbrev pub IdentityResolver : Type 0
IdentityResolver = String → EvidenceCandidate → Role → Result IdentityError (Option String)

-- a candidate with its resolved subject and object
pub record Item : Type 0 where
  pub candidate : EvidenceCandidate
  pub subject : String
  pub object_value : Json

abbrev pub is_null : Json → Bool
is_null null = true
is_null _ = false

-- `not obj`, of a resolved identity: null, a text or an array
abbrev pub is_falsy : Json → Bool
is_falsy null = true
is_falsy (text s) = s == ""
is_falsy (array nil) = true
is_falsy _ = false

pub data Fate : Type 0 where
  accepted : Item → Fate
  unresolved : Fate
  denied : Fate

module _ (codec : Codec) (resolver : IdentityResolver) where
  open codec use {dumps, sha256_hex, str_of}

  abbrev str : Json → String
  str (text s) = s
  str j = str_of j

  keep_some : Option String → List String → List String
  keep_some none ss = ss
  keep_some (some s) ss = s ∷ ss

  -- `[v for v in resolved if v is not None]`, each `resolver(str(v), candidate, "object")`
  resolve_each : EvidenceCandidate → Items → Result IdentityError (List String)
  unfolding keep_some
  resolve_each c nil = ok []
  resolve_each c (cons v vs) = do
    r ← resolver (str v) c object_role
    rest ← resolve_each c vs
    ok (keep_some r rest)

  resolve_value : EvidenceCandidate → Json → Result IdentityError Json
  unfolding resolve_each
  resolve_value c null = ok null
  resolve_value c (text s) = do r ← resolver s c object_role; ok (or_null text r)
  resolve_value c (array vs) = do r ← resolve_each c vs; ok (array (texts r))
  resolve_value c _ = err not_resolvable

  unfoldable pub resolve_object : EvidenceCandidate → Result IdentityError Json
  unfolding resolve_value
  resolve_object c =
      if c.object_is_identity then resolve_value c c.object_value else ok c.object_value

  -- the tests on an object that was resolved
  abbrev pub is_unresolved : EvidenceCandidate → Json → Bool
  is_unresolved c obj =
      c.object_is_identity
      && (not (is_null c.object_value) && is_null obj
          || c.resolution == exact && is_null obj
          || c.resolution == candidate_set && is_falsy obj)

  abbrev pub fate_of_parts : EvidenceCandidate → Option String → Json → Fate
  fate_of_parts c none obj = unresolved
  fate_of_parts c (some s) obj =
      if is_unresolved c obj
      then unresolved
      else accepted (record { candidate = c; subject = s; object_value = obj })

  abbrev pub fate_of_result : EvidenceCandidate → Result IdentityError (Option String × Json) → Fate
  fate_of_result c (ok (s, obj)) = fate_of_parts c s obj
  fate_of_result c (err not_resolvable) = unresolved
  fate_of_result c (err identity_denied) = denied

  -- the body of the first loop: the `try`, and the `continue`s behind it
  unfoldable pub fate : EvidenceCandidate → Fate
  unfolding resolve_object
  fate c =
      fate_of_result c
        (do s ← resolver c.subject c subject_role; obj ← resolve_object c; ok (s, obj))
