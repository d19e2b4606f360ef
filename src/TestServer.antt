-- ===== src/TestServer.antt =====
-- internal/testutil/mcptest/server.go: the MCP server that the tests of the repository run against.
-- The SDK's `*mcp.Server` is a parameter, by its constructor, `AddTool` and `RemoveTools`.
pub mod Running
pub mod Laws
pub mod Adapters
use mcp_multiplexer.Base.{
  Text, text_eq, bytes, Bool, true, false, ◌||◌, Option, none, some, List, [], ◌∷◌, ◌++◌,
  if◌then◌else◌, is_empty, insert, lookup, ℤ, pos, ltb_ℤ,
}
use mcp_multiplexer.Json.{Fields, end, GoMap, contents}
use mcp_multiplexer.Context.{Context}
use mcp_multiplexer.Host.{
  Host, Answer, ok, err, Annotations, RawTool, RawResult, text_content, unmarshal_map,
}

-- `input_schema` is nil, or what `json.Marshal` gives for it.
pub record ToolSpec (W E : Type 0) : Type 0 where
  pub name : Text
  pub description : Text
  pub handler : Option (Context → Fields → W → (Text × Option E) × W)
  pub read_only : Option Bool
  pub destructive : Option Bool
  pub idempotent : Option Bool
  pub open_world : Option Bool
  pub input_schema : Option (Option Text)

-- The handler of a tool, on the raw arguments of the request; none, if there are none.
abbrev pub Handler : Type 0 → Type 0 → Type 0
Handler W E = Context → Option Text → W → Answer E RawResult × W

pub record Sdk (S W E : Type 0) : Type 0 where
  pub new_server : Text → Text → S
  pub add_tool : RawTool → Handler W E → S → S
  pub remove_tool : Text → S → S
  -- what `json.Marshal` gives for the schema of objects
  pub object_schema : Text
  -- the wait for a delay: the context's error, if that comes first
  pub wait : ℤ → Context → W → Option E × W

pub record Server (S W E : Type 0) : Type 0 where
  pub specs : List (ToolSpec W E)
  pub delays : List (Text × ℤ)
  pub errors : List (Text × Option E)
  pub mcp_server : Option S
  pub close_fns : List (W → W)

pub data ServerOption (W E : Type 0) : Type 0 where
  with_tool : ToolSpec W E → ServerOption W E
  with_tool_delay : Text → ℤ → ServerOption W E
  with_tool_error : Text → Option E → ServerOption W E

module _ {S W E : Type 0} where
  set_option : ServerOption W E → Server S W E → Server S W E
  set_option (with_tool spec) s = record s { specs = s.specs ++ spec ∷ [] }
  set_option (with_tool_delay name d) s = record s { delays = insert name d s.delays }
  set_option (with_tool_error name e) s = record s { errors = insert name e s.errors }

  set_options : List (ServerOption W E) → Server S W E → Server S W E
  unfolding set_option
  set_options [] s = s
  set_options (o ∷ os) s = set_options os (set_option o s)

  -- `NewServer`
  unfoldable pub new_server : List (ServerOption W E) → Server S W E
  unfolding set_options
  new_server os =
      set_options os
        (record { specs = []; delays = []; errors = []; mcp_server = none; close_fns = [] })

is_set : Option Bool → Bool
is_set none = false
is_set (some b) = true

hint : Option Bool → Bool
hint none = false
hint (some b) = b

module _ {S W E : Type 0} (host : Host W E) (sdk : Sdk S W E) where
  schema_of : Option (Option Text) → Option Text
  schema_of none = some sdk.object_schema
  schema_of (some schema) = schema

  annotations_of : ToolSpec W E → Option Annotations
  unfolding is_set hint
  annotations_of spec =
      if is_set spec.read_only
        || (is_set spec.destructive || (is_set spec.idempotent || is_set spec.open_world))
      then some (record {
        read_only_hint = hint spec.read_only;
        destructive_hint = spec.destructive;
        idempotent_hint = hint spec.idempotent;
        open_world_hint = spec.open_world;
      })
      else none

  -- The tool that the server advertises for a specification.
  unfoldable pub tool_of : ToolSpec W E → RawTool
  unfolding schema_of annotations_of
  tool_of spec = record {
    name = spec.name;
    description = spec.description;
    input_schema = schema_of spec.input_schema;
    annotations = annotations_of spec;
  }

  replied : (Text × Option E) × W → Answer E RawResult × W
  replied ((text, some e), w) = (err e, w)
  replied ((text, none), w) =
      (ok (record { content = text_content text ∷ []; is_error = false }), w)

  -- The arguments; what cannot be decoded leaves the map nil.
  decoded_args : Answer E GoMap → Fields
  decoded_args (ok m) = contents m
  decoded_args (err e) = end

  pub request_args : Option Text → Fields
  unfolding decoded_args
  request_args none = end
  request_args (some raw) = if is_empty raw then end else decoded_args (unmarshal_map host raw)

  run_handler : ToolSpec W E → Context → Option Text → W → Answer E RawResult × W
  unfolding replied request_args
  run_handler spec ctx args w = elim spec.handler [
    | none ↦ replied (([], none), w)
    | some f ↦ replied (f ctx (request_args args) w)
  ]

  forced : Option E → ToolSpec W E → Context → Option Text → W → Answer E RawResult × W
  unfolding run_handler
  forced (some e) spec ctx args w = (err e, w)
  forced none spec ctx args w = run_handler spec ctx args w

  waited : Option E × W → Option E → ToolSpec W E → Context → Option Text → Answer E RawResult × W
  unfolding forced
  waited (some e, w) x spec ctx args = (err e, w)
  waited (none, w) x spec ctx args = forced x spec ctx args w

  delay_of : Option ℤ → ℤ
  delay_of none = pos 0
  delay_of (some d) = d

  error_of : Option (Option E) → Option E
  error_of none = none
  error_of (some e) = e

  -- The handler that `addTool` registers.
  unfoldable pub tool_handler : Server S W E → ToolSpec W E → Handler W E
  unfolding waited delay_of error_of
  tool_handler s spec ctx args w =
      let delay = delay_of (lookup spec.name s.delays) in
      let e = error_of (lookup spec.name s.errors) in
      if ltb_ℤ (pos 0) delay
      then waited (sdk.wait delay ctx w) e spec ctx args
      else forced e spec ctx args w
