-- ===== src/Log.antt =====
-- The fields of log lines: logger.go, the adapters of log/ and of transport.go, and the logger of
-- internal/testutil/capturelog that keeps what it is given. `V` holds the values of an `any` that
-- are no strings.
pub mod Laws
use mcp_multiplexer.Base.{
  ℕ, Text, text_eq, nat_eq, bytes, ◌==◌, Bool, true, false, ◌&&◌, ◌||◌, Option, none, some, List,
  [], ◌∷◌, ◌++◌, if◌then◌else◌, is_empty, insert, lookup, filter,
}
use mcp_multiplexer.Host.{Level, debug, info, warn, error}

-- An `any`, by its dynamic type.
pub data Dynamic (V : Type 0) : Type 0 where
  string : Text → Dynamic V
  other : V → Dynamic V

pub record Field (V : Type 0) : Type 0 where
  pub key : Text
  pub value : Dynamic V

-- `NopLogger`
unfoldable pub nop_logger : {V W : Type 0} → Level → Text → List (Field V) → W → W
nop_logger level message fields w = w

-- The fields of a line in the form of another logger, each made by `any`.
converted : {V A : Type 0} → (Text → Dynamic V → A) → List (Field V) → List A
converted any [] = []
converted any (f ∷ fs) = any f.key f.value ∷ converted any fs

-- `New` of sloglog and of zaplog, around a `*slog.Logger` or `*zap.Logger` that may be nil, with
-- `slog.Any` or `zap.Any`.
unfoldable pub adapter :
    {V W A : Type 0}
    → Option (Level → Text → List A → W → W)
    → (Text → Dynamic V → A)
    → Level
    → Text
    → List (Field V)
    → W
    → W
unfolding converted nop_logger
adapter none any level message fields w = nop_logger level message fields w
adapter (some log) any level message fields w = log level message (converted any fields) w

-- `kvToFields`: a pair whose key is no string is skipped, and so is a key without a value.
unfoldable pub kv_to_fields : {V : Type 0} → List (Dynamic V) → List (Field V)
kv_to_fields [] = []
kv_to_fields (k ∷ []) = []
kv_to_fields (string key ∷ v ∷ kv) = record { key = key; value = v } ∷ kv_to_fields kv
kv_to_fields (other k ∷ v ∷ kv) = kv_to_fields kv

-- A line that was captured, and the lines in the order of their arrival.
pub record Entry (V : Type 0) : Type 0 where
  pub level : Level
  pub message : Text
  pub fields : List (Text × Dynamic V)

abbrev pub Captured : Type 0 → Type 0
Captured V = List (Entry V)

abbrev pub level_beq : Level → Level → Bool
level_beq debug debug = true
level_beq info info = true
level_beq warn warn = true
level_beq error error = true
level_beq a b = false

abbrev starts_with : Text → Text → Bool
starts_with [] s = true
starts_with (c ∷ p) [] = false
starts_with (c ∷ p) (d ∷ s) = (c == d) && starts_with p s

-- `strings.Contains`
abbrev pub contains_text : Text → Text → Bool
contains_text sub [] = starts_with sub []
contains_text sub (c ∷ s) = starts_with sub (c ∷ s) || contains_text sub s

module _ {V : Type 0} where
  -- The map of `append`: of two fields with one key the last is kept.
  field_map : List (Field V) → List (Text × Dynamic V) → List (Text × Dynamic V)
  field_map [] m = m
  field_map (f ∷ fs) m = field_map fs (insert f.key f.value m)

  -- `append`, which `Debug`, `Info`, `Warn` and `Error` call with their level.
  unfoldable pub append : Level → Text → List (Field V) → Captured V → Captured V
  unfolding field_map
  append level message fields l =
      l ++ (record { level = level; message = message; fields = field_map fields [] } ∷ [])

  unfoldable pub entries_at_level : Level → Captured V → List (Entry V)
  entries_at_level level l = filter (λ e. level_beq e.level level) l

  -- `Reset`
  unfoldable pub reset : Captured V → Captured V
  reset l = []

-- `sprint` is `fmt.Sprint`.
module _ {V : Type 0} (sprint : Dynamic V → Text) where
  field_contains : Text → List (Text × Dynamic V) → Bool
  field_contains sub [] = false
  field_contains sub ((k, v) ∷ m) = contains_text sub (sprint v) || field_contains sub m

  -- The loop of `Contains` and of `ContainsAtLevel`.
  any_contains : Text → List (Entry V) → Bool
  unfolding field_contains
  any_contains sub [] = false
  any_contains sub (e ∷ l) =
      (contains_text sub e.message || field_contains sub e.fields) || any_contains sub l

  unfoldable pub captured_contains : Text → Captured V → Bool
  unfolding any_contains
  captured_contains sub l = if is_empty sub then false else any_contains sub l

  unfoldable pub contains_at_level : Level → Text → Captured V → Bool
  unfolding any_contains entries_at_level
  contains_at_level level sub l =
      if is_empty sub then false else any_contains sub (entries_at_level level l)

  field_is : Text → Option (Dynamic V) → Bool
  field_is target none = false
  field_is target (some v) = sprint v == target

  any_field : Text → Text → List (Entry V) → Bool
  unfolding field_is
  any_field key target [] = false
  any_field key target (e ∷ l) = field_is target (lookup key e.fields) || any_field key target l

  unfoldable pub contains_field : Text → Dynamic V → Captured V → Bool
  unfolding any_field
  contains_field key value l = any_field key (sprint value) l
