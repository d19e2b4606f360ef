-- ===== src/Validate.antt =====
-- validate.go: placeholder values in the arguments, and the call of the JSON Schema validator.
pub mod Placeholders
use mcp_multiplexer.Base.{
  ℕ, Text, text_eq, bytes, ◌==◌, ◌||◌, if◌then◌else◌, Bool, true, false, List, [], ◌∷◌, ◌++◌,
  is_empty, is_ascii, contains, nat_eq,
}
use mcp_multiplexer.Json.{Value, null, bool, num, str, arr, obj, Fields, end, field}
use mcp_multiplexer.Transform.{Unicode, to_lower}

-- `invalidArgValues`
abbrev pub invalid_arg_values : List Text
invalid_arg_values =
    bytes "undefined"
    ∷ bytes "null"
    ∷ bytes "none"
    ∷ bytes "unknown"
    ∷ bytes "<unknown>"
    ∷ bytes "<none>"
    ∷ []

-- The ASCII white space of `strings.TrimSpace`.
abbrev space_bytes : List ℕ
space_bytes = 9 ∷ 10 ∷ 11 ∷ 12 ∷ 13 ∷ 32 ∷ []

trim_left : Text → Text
trim_left [] = []
trim_left (c ∷ s) = let rest = trim_left s in if contains c space_bytes then rest else c ∷ s

trim_right : Text → Text
trim_right [] = []
trim_right (c ∷ s) =
    let rest = trim_right s in
    if is_empty rest then (if contains c space_bytes then [] else c ∷ []) else c ∷ rest

-- `strings.TrimSpace`
unfoldable pub trim_space : Unicode → Text → Text
unfolding trim_left trim_right
trim_space u s = if is_ascii s then trim_right (trim_left s) else u.trim s

-- The test on a string value.
unfoldable pub is_placeholder : Unicode → Text → Bool
unfolding trim_space to_lower
is_placeholder u s =
    let norm = trim_space u (to_lower u s) in is_empty norm || contains norm invalid_arg_values

-- The path of a field, below a path.
unfoldable pub field_path : Text → Text → Text
field_path path k = if is_empty path then k else path ++ (bytes "." ++ k)

-- `walkArgs`, `bad` being what was found so far.
unfoldable mutual
  pub walk_args : Unicode → Value → Text → List Text → List Text
  walk_args u null path bad = bad
  walk_args u (bool b) path bad = bad
  walk_args u (num n) path bad = bad
  walk_args u (str s) path bad = if is_placeholder u s then bad ++ path ∷ [] else bad
  walk_args u (arr xs) path bad = bad
  walk_args u (obj m) path bad = walk_fields u m path bad

  pub walk_fields : Unicode → Fields → Text → List Text → List Text
  walk_fields u end path bad = bad
  walk_fields u (field k child m) path bad =
      walk_fields u m path (walk_args u child (field_path path k) bad)

unfoldable pub find_invalid_args : Unicode → Fields → List Text
find_invalid_args u args = walk_args u (obj args) [] []

-- The outcome of `gojsonschema.Validate`: an error message, or the violations found.
pub data SchemaOutcome : Type 0 where
  unusable : Text → SchemaOutcome
  checked : List Text → SchemaOutcome

schema_errors : SchemaOutcome → List Text
schema_errors (unusable message) = message ∷ []
schema_errors (checked violations) = violations

-- `validateSchema`, over the validator `check`
unfoldable pub validate_schema : (Text → Text → SchemaOutcome) → Text → Text → List Text
unfolding schema_errors
validate_schema check schema args =
    if is_empty schema
    then []
    else schema_errors (check schema (if is_empty args then bytes "{}" else args))
