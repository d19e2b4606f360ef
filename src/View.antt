-- ===== src/View.antt =====
-- filter.go: a view of a multiplexer that is restricted to some of its servers.
pub mod Laws
use mcp_multiplexer.Base.{
  Text, text_eq, Option, none, some, List, [], ◌∷◌, ◌++◌, lookup, insert, keys, sort,
}
use mcp_multiplexer.Context.{Context}
use mcp_multiplexer.Tool.{ToolInfo}
use mcp_multiplexer.Errors.{Failure, unknown_servers, hidden_server}
use mcp_multiplexer.Host.{Host, Answer, ok, err}
use mcp_multiplexer.Mux.{Mux, ServerEntry}
use mcp_multiplexer.Mux.Queries.{Servers, tools_for_servers}
use mcp_multiplexer.Caller.Run.{Run}
use mcp_multiplexer.Caller.Dispatch.{Outcome}
use mcp_multiplexer.Caller.Call.{call_tool}

pub record View (W E : Type 0) : Type 0 where
  pub parent : Mux W E
  pub names : List Text
  pub servers : Servers

filter_step : Text → Option ServerEntry → List Text × Servers → List Text × Servers
filter_step name none (missing, servers) = (missing ++ name ∷ [], servers)
filter_step name (some e) (missing, servers) = (missing, insert name e servers)

-- The loop of `FilterByNames`: the names that are missing, and the entries found.
unfoldable pub filter_loop : Servers → List Text → List Text × Servers → List Text × Servers
unfolding filter_step
filter_loop all [] acc = acc
filter_loop all (name ∷ names) acc = filter_loop all names (filter_step name (lookup name all) acc)

filter_result :
    {W E : Type 0} → Mux W E → List Text → List Text × Servers → Answer (Failure E) (View W E)
filter_result mx names ([], servers) = ok (record { parent = mx; names = names; servers = servers })
filter_result mx names (m ∷ missing, servers) =
    err (unknown_servers (m ∷ missing) (sort (keys mx.servers)))

unfoldable pub filter_by_names :
    {W E : Type 0} → Mux W E → List Text → Answer (Failure E) (View W E)
unfolding filter_result filter_loop
filter_by_names mx names = filter_result mx names (filter_loop mx.servers names ([], []))

-- `(*View).ServerNames`
unfoldable pub server_names : {W E : Type 0} → View W E → List Text
server_names v = v.names

-- `(*View).Tools`
unfoldable pub tools : {W E : Type 0} → View W E → List ToolInfo
tools v = tools_for_servers v.parent.servers v.names

-- `(*View).CallTool`
unfoldable pub call_tool_in_view :
    {W E : Type 0} (host : Host W E) (v : View W E)
    → Context
    → Text
    → Text
    → Text
    → Run W E
    → Outcome host v.parent.opts
call_tool_in_view host v ctx server tool args s = elim (lookup server v.servers) [
  | none ↦ (err (hidden_server server), s)
  | some e ↦ call_tool host v.parent ctx server tool args s
]
