-- ===== src/Eino.antt =====
-- eino/eino.go: the tools of a multiplexer as tools of eino. `P` is `schema.ParamsOneOf`, and
-- `params` stands for the decoding of a JSON schema and `NewParamsOneOfByJSONSchema`.
pub mod Laws
use mcp_multiplexer.Base.{Text, Option, none, some, List, [], ◌∷◌, if◌then◌else◌, is_empty}
use mcp_multiplexer.Context.{Context}
use mcp_multiplexer.Tool.{ToolInfo, CallResult}
use mcp_multiplexer.Errors.{Failure}
use mcp_multiplexer.Host.{Host, Answer, ok, err}
use mcp_multiplexer.Mux.{Mux}
use mcp_multiplexer.Mux.Queries.{Servers, all_tools, tools_for_servers}
use mcp_multiplexer.Caller.Run.{Run}
use mcp_multiplexer.Caller.Call.{call_tool}

-- `mcpxTool`, less the multiplexer.
pub record McpxTool : Type 0 where
  pub server : Text
  pub info : ToolInfo

wrap_all : List ToolInfo → List McpxTool
wrap_all [] = []
wrap_all (ti ∷ tools) = record { server = ti.server; info = ti } ∷ wrap_all tools

-- `Tools`
unfoldable pub tools : Servers → List McpxTool
unfolding wrap_all
tools servers = wrap_all (all_tools servers)

wrap_for : Text → List ToolInfo → List McpxTool
wrap_for server [] = []
wrap_for server (ti ∷ tools) = record { server = server; info = ti } ∷ wrap_for server tools

-- `ToolsForServer`
unfoldable pub tools_for_server : Servers → Text → List McpxTool
unfolding wrap_for
tools_for_server servers server = wrap_for server (tools_for_servers servers (server ∷ []))

-- `schema.ToolInfo`
pub record EinoInfo (P : Type 0) : Type 0 where
  pub name : Text
  pub desc : Text
  pub params : Option P

module _ {P : Type 0} (params : Text → Option P) where
  -- `inputSchemaToParams`
  input_schema_to_params : Text → Option P
  input_schema_to_params raw = if is_empty raw then none else params raw

  -- `Info`; it never fails.
  unfoldable pub info : McpxTool → EinoInfo P
  unfolding input_schema_to_params
  info t = record {
    name = t.info.name;
    desc = t.info.description;
    params = input_schema_to_params t.info.input_schema;
  }

text_of : {E : Type 0} → Answer (Failure E) CallResult → Answer (Failure E) Text
text_of (err e) = err e
text_of (ok result) = ok result.text

module _ {W E : Type 0} where
  -- `InvokableRun`
  unfoldable pub invokable_run :
      Host W E → Mux W E → McpxTool → Context → Text → Run W E → Answer (Failure E) Text × Run W E
  unfolding text_of
  invokable_run host mx t ctx args s =
      let (answer, s') = call_tool host mx ctx t.server t.info.name args s in (text_of answer, s')
