-- ===== src/TestServer/Running.antt =====
-- The life of the test server: it is built once, tools come and go, its transports are closed, and
-- its options are checked.
pub mod Checked
use mcp_multiplexer.Base.{
  Text, text_eq, bytes, Option, none, some, List, [], ◌∷◌, ◌++◌, if◌then◌else◌, keys, contains,
}
use mcp_multiplexer.Host.{Host}
use mcp_multiplexer.TestServer.{ToolSpec, Sdk, Server, tool_of, tool_handler}

module _ {S W E : Type 0} (host : Host W E) (sdk : Sdk S W E) where
  -- `addTool`
  add_tool : Server S W E → ToolSpec W E → S → S
  unfolding tool_of tool_handler
  add_tool s spec srv = sdk.add_tool (tool_of host sdk spec) (tool_handler host sdk s spec) srv

  add_tools : Server S W E → List (ToolSpec W E) → S → S
  unfolding add_tool
  add_tools s [] srv = srv
  add_tools s (spec ∷ specs) srv = add_tools s specs (add_tool s spec srv)

  -- `build`: the server is built at the first call.
  unfoldable pub build : Server S W E → S × Server S W E
  unfolding add_tools
  build s = elim s.mcp_server [
    | some srv ↦ (srv, s)
    | none ↦
        let srv = add_tools s s.specs (sdk.new_server (bytes "mcptest") (bytes "v0.0.0")) in
        (srv, record s { mcp_server = some srv })
  ]

  -- `AddLiveTool` and `RemoveLiveTool` change the built server in place.
  unfoldable pub add_live_tool : ToolSpec W E → Server S W E → Server S W E
  unfolding build
  add_live_tool spec s =
      let (srv, s') = build s in record s' { mcp_server = some (add_tool s spec srv) }

  unfoldable pub remove_live_tool : Text → Server S W E → Server S W E
  unfolding build
  remove_live_tool name s =
      let (srv, s') = build s in record s' { mcp_server = some (sdk.remove_tool name srv) }

unfoldable pub run_all : {W : Type 0} → List (W → W) → W → W
run_all [] w = w
run_all (f ∷ fs) w = run_all fs (f w)

-- `ErrToolNotConfigured`, with what was attached to the unknown name.
pub data NotConfigured : Type 0 where
  delay_attached error_attached : Text → NotConfigured

abbrev pub spec_names : {W E : Type 0} → List (ToolSpec W E) → List Text
spec_names [] = []
spec_names (spec ∷ specs) = spec.name ∷ spec_names specs

-- The loops of `ensureKnown` over a map.
first_unknown : List Text → List Text → Option Text
first_unknown known [] = none
first_unknown known (n ∷ ns) =
    let rest = first_unknown known ns in if contains n known then rest else some n

unknown_error : Option Text → Option NotConfigured
unknown_error none = none
unknown_error (some n) = some (error_attached n)

unknown_delay : Option Text → Option NotConfigured → Option NotConfigured
unknown_delay none rest = rest
unknown_delay (some n) rest = some (delay_attached n)

module _ {S W E : Type 0} where
  -- `Close`
  unfoldable pub close : Server S W E → W → Server S W E × W
  unfolding run_all
  close s w = (record s { close_fns = [] }, run_all s.close_fns w)

  -- `trackClose`
  unfoldable pub track_close : (W → W) → Server S W E → Server S W E
  track_close f s = record s { close_fns = s.close_fns ++ f ∷ [] }

  -- `ensureKnown`; `none` is a nil error.
  unfoldable pub ensure_known : Server S W E → Option NotConfigured
  unfolding first_unknown unknown_error unknown_delay
  ensure_known s =
      let known = spec_names s.specs in
      unknown_delay (first_unknown known (keys s.delays))
        (unknown_error (first_unknown known (keys s.errors)))
