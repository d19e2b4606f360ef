-- ===== src/Host.antt =====
-- What the library takes from outside the repository: the clock, encoding/json, the MCP SDK's
-- sessions, the JSON Schema validator, time.ParseDuration, the Unicode tables. `W` is the state of
-- the outside world, which every call may read and change; `E` is the type of foreign errors.
use mcp_multiplexer.Base.{ℕ, ◌≡◌, refl, ◌⊎◌, inl, inr, Text, Bool, Option, some, none, List, ℤ}
use mcp_multiplexer.Json.{Value, obj, GoMap}
use mcp_multiplexer.Context.{Context}
use mcp_multiplexer.Transform.{Unicode}
use mcp_multiplexer.Validate.{SchemaOutcome}

-- A result of `err != nil` style, or a value.
pub data Answer {ℓ} (E A : Type ℓ) : Type ℓ where
  ok : A → Answer E A
  err : E → Answer E A

pub Answer-cases {ℓ} :
    {E A : Type ℓ} (a : Answer E A) → ((e : E) × (a ≡ err e)) ⊎ ((x : A) × (a ≡ ok x))
Answer-cases (err e) = inl (e, refl)
Answer-cases (ok x) = inr (x, refl)

-- An MCP session, by its identity.
abbrev pub Session : Type 0
Session = ℕ

-- The parts of an `*http.Request` that the code and its auth functions change; the keys of the
-- header are in canonical form.
pub record Request : Type 0 where
  pub url : Text
  pub header : List (Text × Text)
  pub body : Text

-- The content blocks of an `*mcp.CallToolResult`; an `other_content` carries what `json.Marshal`
-- gives for it, or `none` where that fails.
pub data Content : Type 0 where
  text_content : Text → Content
  image_content : Text → Option Text → Content
  other_content : Option Text → Content

pub record RawResult : Type 0 where
  pub content : List Content
  pub is_error : Bool

-- How a call to the server can fail: `deadline` says whether the call's own context had passed its
-- deadline then.
pub record CallError (E : Type 0) : Type 0 where
  pub error : E
  pub deadline : Bool

-- The annotations and the tools of an `*mcp.ListToolsResult`. A schema is what `json.Marshal` gives
-- for it; `none` where it is nil or cannot be marshalled.
pub record Annotations : Type 0 where
  pub read_only_hint : Bool
  pub destructive_hint : Option Bool
  pub idempotent_hint : Bool
  pub open_world_hint : Option Bool

pub record RawTool : Type 0 where
  pub name : Text
  pub description : Text
  pub input_schema : Option Text
  pub annotations : Option Annotations

pub data Level : Type 0 where
  debug info warn error : Level

pub record Host (W E : Type 0) : Type 0 where
  pub unicode : Unicode
  -- `json.Unmarshal` into `any`, and `json.Marshal` of what that gives
  pub unmarshal : Text → Answer E Value
  pub marshal : Value → Option Text
  -- the error of `json.Unmarshal` into a map for a document that is no object
  pub not_object : Value → E
  pub parse_duration : Text → Option ℤ
  pub check_schema : Text → Text → SchemaOutcome
  -- `time.Now()`, in nanoseconds
  pub now : W → ℕ × W
  -- `(*mcp.ClientSession).CallTool` under a timeout; a nil result is `none`
  pub call_tool :
      Context → ℤ → Session → Text → Option GoMap → W → Answer (CallError E) (Option RawResult) × W
  -- `(*mcp.ClientSession).ListTools` under a timeout, if there is one
  pub list_tools : Option ℤ → Session → W → Answer E (List RawTool) × W
  -- `(*mcp.ClientSession).Close`
  pub close : Session → W → Option E × W

module _ {W E : Type 0} (host : Host W E) where
  map_of : Value → Answer E GoMap
  map_of (obj m) = ok (some m)
  map_of Value.null = ok none
  map_of v = err (host.not_object v)

  decoded : Answer E Value → Answer E GoMap
  unfolding map_of
  decoded (err e) = err e
  decoded (ok v) = map_of v

  -- `json.Unmarshal` into a `map[string]any`: an object, or null, which leaves the map nil.
  unfoldable pub unmarshal_map : Text → Answer E GoMap
  unfolding decoded
  unmarshal_map s = decoded (host.unmarshal s)
