-- ===== src/Protocol/Staging.antt =====
-- rintel/provider_protocol/staging.py: the staging area of one analysis. `json.dumps` with its sorted
-- keys and `json.loads` are parameters, texts are code points, and a write that the disk refuses is
-- left out. The sequence number is an integer, as the host passes it.
pub mod RoundTrip
use rintel_core.Prelude.{
  ℕ, suc, ◌+◌, String, Bool, true, false, ◌&&◌, ◌||◌, not, Option, none, some, List, [], ◌∷◌, ◌++◌,
  all, length, leb, codes, Result, ok, err, raise_if, ◌>>◌, ◌>>=◌, ◌==◌, nat_eq, if◌then◌else◌,
}
use rintel_core.Prelude.Dict.{insert}
use rintel_core.Prelude.Json.{Json}

pub data StagingError : Type 0 where
  unsafe_analysis_id already_staged sequence_mismatch no_such_directory invalid_json
        already_quarantined :
      StagingError

-- a directory: its JSON documents by their names, and `facts.jsonl`
pub record Directory : Type 0 where
  pub documents : List (String × Json)
  pub facts_text : Option (List ℕ)

-- the counters, and the directories `active/<id>` and `failed/<id>`
pub record StagingArea : Type 0 where
  pub analysis_id : String
  pub batch_count : ℕ
  pub fact_count : ℕ
  pub active : Option Directory
  pub failed : Option Directory

abbrev between : ℕ → ℕ → ℕ → Bool
between low high c = leb low c && leb c high

abbrev is_alphanumeric : ℕ → Bool
is_alphanumeric c = between b'A' b'Z' c || between b'a' b'z' c || between b'0' b'9' c

abbrev is_id_character : ℕ → Bool
is_id_character c = is_alphanumeric c || c == b'_' || c == b'.' || c == b'-'

abbrev is_safe : List ℕ → Bool
is_safe [] = false
is_safe (c ∷ cs) = is_alphanumeric c && all is_id_character cs && leb (length cs) 127

-- `_SAFE_ID.fullmatch`
unfoldable pub is_safe_id : String → Bool
is_safe_id s = is_safe (codes s)

-- `__init__`
unfoldable pub new_area :
    Option Directory → Option Directory → String → Result StagingError StagingArea
new_area active failed analysis_id = do
  raise_if (not (is_safe_id analysis_id)) unsafe_analysis_id
  ok (record {
    analysis_id = analysis_id;
    batch_count = 0;
    fact_count = 0;
    active = active;
    failed = failed;
  })

abbrev directory_of : StagingArea → Result StagingError Directory
directory_of a = elim a.active [ none ↦ err no_such_directory | some d ↦ ok d ]

-- `_write_json`, by way of a temporary file that is renamed
unfoldable pub write_json : String → Json → StagingArea → Result StagingError StagingArea
write_json name payload a = do
  d ← directory_of a
  ok (record a { active = some (record d { documents = insert name payload d.documents }) })

abbrev touch : StagingArea → Result StagingError StagingArea
touch a = do d ← directory_of a; ok (record a { active = some (record d { facts_text = some [] }) })

-- `start`; the directory must not be there
unfoldable pub start : Json → StagingArea → Result StagingError StagingArea
start manifest a = elim a.active [
  | some d ↦ err already_staged
  | none ↦
      write_json "manifest.json" manifest
        (record a { active = some (record { documents = []; facts_text = none }) })
      >>= touch
]

unfoldable pub bind_session : Json → Json → StagingArea → Result StagingError StagingArea
bind_session provider contract a =
    write_json "provider.json" provider a >>= write_json "contract.json" contract

unfoldable pub complete : Json → StagingArea → Result StagingError StagingArea
complete completion a = write_json "completion.json" completion a

-- what `open("a")` finds
abbrev text_of : Option (List ℕ) → List ℕ
text_of none = []
text_of (some t) = t

-- the line boundaries of `str.splitlines`
abbrev pub is_boundary : ℕ → Bool
is_boundary c = between 10 13 c || between 28 30 c || c == 133 || c == 8232 || c == 8233

abbrev starts_with_newline : List ℕ → Bool
starts_with_newline [] = false
starts_with_newline (c ∷ cs) = c == 10

abbrev push : ℕ → List (List ℕ) → List (List ℕ)
push c [] = (c ∷ []) ∷ []
push c (l ∷ ls) = (c ∷ l) ∷ ls

-- `str.splitlines`; a carriage return and a newline are one boundary
unfoldable pub split_lines : List ℕ → List (List ℕ)
split_lines [] = []
split_lines (c ∷ cs) =
    let rest = split_lines cs in
    if c == 13 && starts_with_newline cs
    then rest
    else if is_boundary c
    then [] ∷ rest
    else push c rest

module _ (dumps : Json → List ℕ) (loads : List ℕ → Option Json) where
  -- the rows that are written, each with a newline
  unfoldable pub render : List Json → List ℕ
  render [] = []
  render (j ∷ js) = dumps j ++ (10 ∷ render js)

  unfoldable pub append_batch : ℕ → List Json → StagingArea → Result StagingError StagingArea
  append_batch sequence rows a = do
    raise_if (not (sequence == a.batch_count)) sequence_mismatch
    d ← directory_of a
    ok (record a {
      batch_count = suc a.batch_count;
      fact_count = a.fact_count + length rows;
      active = some (record d { facts_text = some (text_of d.facts_text ++ render rows) });
    })

  abbrev load : List ℕ → Result StagingError Json
  load line = elim (loads line) [ none ↦ err invalid_json | some j ↦ ok j ]

  unfoldable pub load_all : List (List ℕ) → Result StagingError (List Json)
  load_all [] = ok []
  load_all (l ∷ ls) = do j ← load l; js ← load_all ls; ok (j ∷ js)

  abbrev read_text : Option (List ℕ) → Result StagingError (List ℕ)
  read_text none = err no_such_directory
  read_text (some t) = ok t

  -- `facts`
  unfoldable pub facts : StagingArea → Result StagingError (List Json)
  facts a = do d ← directory_of a; t ← read_text d.facts_text; load_all (split_lines t)

-- `quarantine`: the directory moves to `failed`, where none of that name may be; `reason` is the
-- document of the failure, which is written first
unfoldable pub quarantine : Json → StagingArea → Result StagingError (Unit {0}) × StagingArea
quarantine reason a = elim a.active [
  | none ↦ (ok tt, a)
  | some d ↦
      let d' = record d { documents = insert "failure.json" reason d.documents } in
      elim a.failed [
        | none ↦ (ok tt, record a { active = none; failed = some d' })
        | some old ↦ (err already_quarantined, record a { active = some d' })
      ]
]
