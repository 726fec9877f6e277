-- ===== src/Models/Flags.antt =====
-- `_flag_to_json` and `_flag_from_json` of graph/store.py. The JSONB column keeps the dictionary that was
-- dumped; a missing key cannot occur in a `FlagJson`.
use wager.Prelude.{◌≡◌, refl, Option, none, some, List, [], ◌∷◌, map, All}
use wager.Models.{DataFlag, FlagJson}
use wager.Errors.Formats.{Formats}
use wager.Models.Values.{
  source_value, source_of, severity_value, severity_of, source_of-source_value,
  severity_of-severity_value,
}

unfoldable pub flag_to_json : Formats → DataFlag → FlagJson
flag_to_json formats flag = record {
  source = source_value flag.source;
  severity = severity_value flag.severity;
  message = flag.message;
  created_at = formats.isoformat flag.created_at;
}

-- `none` is the ValueError of an enum or of fromisoformat.
unfoldable pub flag_from_json : Formats → FlagJson → Option DataFlag
flag_from_json formats j = elim (source_of j.source) [
  | none ↦ none
  | some source ↦ elim (severity_of j.severity) [
    | none ↦ none
    | some severity ↦ elim (formats.fromisoformat j.created_at) [
      | none ↦ none
      | some created_at ↦ some (record {
        source = source;
        severity = severity;
        message = j.message;
        created_at = created_at;
      })
    ]
  ]
]

-- `[_flag_from_json(f) for f in flags]`.
unfoldable pub flags_from_json : Formats → List FlagJson → Option (List DataFlag)
flags_from_json formats [] = some []
flags_from_json formats (j ∷ js) = elim (flag_from_json formats j) [
  | none ↦ none
  | some flag ↦ elim (flags_from_json formats js) [ none ↦ none | some flags ↦ some (flag ∷ flags) ]
]

-- `fromisoformat` reads what `isoformat` wrote of the flag's time.
abbrev pub IsTimed : Formats → DataFlag → Type 0
IsTimed formats f = formats.fromisoformat (formats.isoformat f.created_at) ≡ some f.created_at

flag_from_json-flag_to_json :
    (formats : Formats) (f : DataFlag)
    → IsTimed formats f
    → flag_from_json formats (flag_to_json formats f) ≡ some f
unfolding flag_from_json flag_to_json
flag_from_json-flag_to_json formats f timed =
    rw (source_of-source_value, flag_from_json)
      (rw (severity_of-severity_value, flag_from_json) (rw timed refl))

-- A list of flags that is written to bets.flags is read back as it was, if fromisoformat reads
-- back what isoformat writes of each of their times.
pub flags_roundtrip :
    (formats : Formats) (fs : List DataFlag)
    → All (IsTimed formats) fs
    → flags_from_json formats (map (flag_to_json formats) fs) ≡ some fs
unfolding flags_from_json
flags_roundtrip formats [] timed = refl
flags_roundtrip formats (f ∷ fs) timed =
    rw (flag_from_json-flag_to_json formats f timed.0, flags_from_json)
      (rw (flags_roundtrip formats fs timed.1, flags_from_json) refl)
