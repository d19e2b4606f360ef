-- ===== src/Caller/Paths.antt =====
-- Every call of CallTool is accounted for by one route: the stages that prepare the arguments, and
-- the call as a whole.
use mcp_multiplexer.Base.{
  ℕ, ◌≡◌, subst, Text, bytes, Option, none, some, List, [], ◌∷◌, lookup, is_empty, text_eq,
  if_cases, Bool-cases, inl, inr,
}
use mcp_multiplexer.Json.{GoMap, contents}
use mcp_multiplexer.Context.{Context}
use mcp_multiplexer.Tool.{ToolInfo, zero_info}
use mcp_multiplexer.Host.{Host, Answer, ok, err, unmarshal_map, debug}
use mcp_multiplexer.Validate.{validate_schema, find_invalid_args}
use mcp_multiplexer.Options.{Options}
use mcp_multiplexer.Config.{ServerConfig}
use mcp_multiplexer.Mux.{Mux, ServerEntry, ServerState, connected, down}
use mcp_multiplexer.Mux.Queries.{server_names}
use mcp_multiplexer.Caller.Run.{Run, log}
use mcp_multiplexer.Caller.Dispatch.{Target}
use mcp_multiplexer.Caller.Call.{
  find_tool, schema_checked, check_schema, transform_args, final_args, placeholders_checked,
  unmarshalled, prepare, with_state, with_tool, with_server, call_tool,
}
use mcp_multiplexer.Caller.Tally.{tally, tally-log}
use mcp_multiplexer.Caller.Accounting.{
  Accounted, before_loop-Accounted, reject-Accounted, Route, Fits, spend,
}

module _ {W E : Type 0} (host : Host W E) (opts : Options W E) where
  schema_checked-Accounted :
      (errs : List Text) (ctx : Context) (t : Target) (s : Run W E)
      → Accounted host opts (tally s.trace) (schema_checked host opts errs ctx t s)
  unfolding schema_checked
  schema_checked-Accounted [] ctx t s = before_loop-Accounted host opts opts.before_call t ctx s
  schema_checked-Accounted (x ∷ xs) ctx t s =
      reject-Accounted host opts ctx t.server t.tool t.info t.args t.start _ _ s tt

  check_schema-Accounted :
      (ctx : Context) (t : Target) (s : Run W E)
      → Accounted host opts (tally s.trace) (check_schema host opts ctx t s)
  unfolding check_schema
  check_schema-Accounted ctx t s =
      if_cases (λ out. Accounted host opts (tally s.trace) out) opts.schema_validation _ _
        (schema_checked-Accounted (validate_schema host.check_schema t.info.input_schema t.args) ctx
          t s)
        (before_loop-Accounted host opts opts.before_call t ctx s)

  placeholders_checked-Accounted :
      (bad : List Text) (config : ServerConfig) (raw : GoMap) (ctx : Context) (t : Target)
      (s : Run W E)
      → Accounted host opts (tally s.trace) (placeholders_checked host opts bad config raw ctx t s)
  unfolding placeholders_checked
  placeholders_checked-Accounted (x ∷ xs) config raw ctx t s =
      reject-Accounted host opts ctx t.server t.tool t.info t.args t.start _ _ s tt
  placeholders_checked-Accounted [] config raw ctx t s =
      let transformed = transform_args host opts config raw in
      let s' = log host opts debug (bytes "mcpx: call") s in
      let t' : Target = record t {
        arguments = some transformed;
        args = final_args host opts transformed t.args;
      } in
      subst (λ y. Accounted host opts y (check_schema host opts ctx t' s'))
        (tally-log host opts debug (bytes "mcpx: call") s) (check_schema-Accounted ctx t' s')

  unmarshalled-Accounted :
      (raw : Answer E GoMap) (config : ServerConfig) (ctx : Context) (t : Target) (s : Run W E)
      → Accounted host opts (tally s.trace) (unmarshalled host opts raw config ctx t s)
  unfolding unmarshalled
  unmarshalled-Accounted (err e) config ctx t s =
      reject-Accounted host opts ctx t.server t.tool t.info t.args t.start _ _ s tt
  unmarshalled-Accounted (ok raw) config ctx t s =
      placeholders_checked-Accounted (find_invalid_args host.unicode (contents raw)) config raw ctx
        t s

  prepare-Accounted :
      (config : ServerConfig) (ctx : Context) (t : Target) (s : Run W E)
      → Accounted host opts (tally s.trace) (prepare host opts config ctx t s)
  unfolding prepare
  prepare-Accounted config ctx t s = elim (Bool-cases (is_empty t.args)) [
    | inl e ↦ rw e (check_schema-Accounted ctx t s)
    | inr e ↦ rw e (unmarshalled-Accounted (unmarshal_map host t.args) config ctx t s)
  ]

  with_state-Accounted :
      (state : ServerState) (info : ToolInfo) (entry : ServerEntry) (ctx : Context)
      (server tool args : Text) (start : ℕ) (s : Run W E)
      → Accounted host opts
          (tally s.trace)
          (with_state host opts state info entry ctx server tool args start s)
  unfolding with_state
  with_state-Accounted down info entry ctx server tool args start s =
      reject-Accounted host opts ctx server tool info args start _ _ s tt
  with_state-Accounted connected info entry ctx server tool args start s =
      prepare-Accounted entry.config ctx _ s

  with_tool-Accounted :
      (found : Option ToolInfo) (entry : ServerEntry) (ctx : Context) (server tool args : Text)
      (start : ℕ) (s : Run W E)
      → Accounted host opts
          (tally s.trace)
          (with_tool host opts found entry ctx server tool args start s)
  unfolding with_tool
  with_tool-Accounted none entry ctx server tool args start s =
      reject-Accounted host opts ctx server tool zero_info args start _ _ s tt
  with_tool-Accounted (some info) entry ctx server tool args start s =
      with_state-Accounted entry.state info entry ctx server tool args start s

  with_server-Accounted :
      (found : Option ServerEntry) (available : List Text) (ctx : Context) (server tool args : Text)
      (start : ℕ) (s : Run W E)
      → Accounted host opts
          (tally s.trace)
          (with_server host opts found available ctx server tool args start s)
  unfolding with_server
  with_server-Accounted none available ctx server tool args start s =
      reject-Accounted host opts ctx server tool zero_info args start _ _ s tt
  with_server-Accounted (some entry) available ctx server tool args start s =
      with_tool-Accounted (find_tool tool entry.tools) entry ctx server tool args start s

-- Every call, whatever the hooks, the cache and the server do, goes one of five routes, and the route
-- fits what it returns: an error of the checks where it is refused, the error of the BeforeCall hook
-- that aborts it, a result from a BeforeCall hook or from the cache, or what follows from the server.
-- On each route every AfterCall hook runs once; the server is asked once on the last, and not on the
-- others; one metric is recorded where the call is refused or the server is asked, and none on the
-- others; and a rejection is reported once where the call is refused or aborted, if there is a
-- callback for it, and none on the others.
pub call_tool-Accounted :
    {W E : Type 0} (host : Host W E) (mx : Mux W E) (ctx : Context) (server tool args : Text)
    (s : Run W E)
    → (r : Route) × Fits r (call_tool host mx ctx server tool args s).0
      × (tally (call_tool host mx ctx server tool args s).1.trace ≡ spend mx.opts r (tally s.trace))
unfolding call_tool
call_tool-Accounted host mx ctx server tool args s =
    with_server-Accounted host mx.opts (lookup server mx.servers) (server_names mx.servers) ctx
      server tool args _ _
