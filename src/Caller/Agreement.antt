-- ===== src/Caller/Agreement.antt =====
-- On every path of CallTool, the AfterCall hooks see what the caller gets.
use mcp_multiplexer.Base.{
  ℕ, ◌≡◌, false, Text, bytes, Option, none, some, List, [], ◌∷◌, lookup, is_empty, text_eq,
  if_cases, Bool-cases, inl, inr,
}
use mcp_multiplexer.Json.{GoMap, contents}
use mcp_multiplexer.Context.{Context}
use mcp_multiplexer.Tool.{ToolInfo, zero_info}
use mcp_multiplexer.Host.{Host, Answer, ok, err, unmarshal_map, debug}
use mcp_multiplexer.Validate.{validate_schema, find_invalid_args}
use mcp_multiplexer.Options.{Options}
use mcp_multiplexer.Config.{ServerConfig}
use mcp_multiplexer.Mux.{Mux, ServerEntry, ServerState, connected, down}
use mcp_multiplexer.Mux.Queries.{server_names}
use mcp_multiplexer.Caller.Run.{Run, log}
use mcp_multiplexer.Caller.Dispatch.{Target}
use mcp_multiplexer.Caller.Call.{
  find_tool, schema_checked, check_schema, transform_args, final_args, placeholders_checked,
  unmarshalled, prepare, with_state, with_tool, with_server, call_tool,
}
use mcp_multiplexer.Caller.Observed.{
  last_after, Reported, Observed, before_loop-Observed, reject-Observed,
}

module _ {W E : Type 0} (host : Host W E) (opts : Options W E)
    (hooked : is_empty opts.after_call ≡ false) where
  schema_checked-Observed :
      (errs : List Text) (ctx : Context) (t : Target) (s : Run W E)
      → Observed host opts (schema_checked host opts errs ctx t s)
  unfolding schema_checked
  schema_checked-Observed [] ctx t s =
      before_loop-Observed host opts hooked opts.before_call t ctx s
  schema_checked-Observed (x ∷ xs) ctx t s =
      reject-Observed host opts hooked ctx t.server t.tool t.info t.args t.start _ _ s

  check_schema-Observed :
      (ctx : Context) (t : Target) (s : Run W E)
      → Observed host opts (check_schema host opts ctx t s)
  unfolding check_schema
  check_schema-Observed ctx t s =
      if_cases (λ out. Observed host opts out) opts.schema_validation _ _
        (schema_checked-Observed (validate_schema host.check_schema t.info.input_schema t.args) ctx
          t s)
        (before_loop-Observed host opts hooked opts.before_call t ctx s)

  placeholders_checked-Observed :
      (bad : List Text) (config : ServerConfig) (raw : GoMap) (ctx : Context) (t : Target)
      (s : Run W E)
      → Observed host opts (placeholders_checked host opts bad config raw ctx t s)
  unfolding placeholders_checked
  placeholders_checked-Observed (x ∷ xs) config raw ctx t s =
      reject-Observed host opts hooked ctx t.server t.tool t.info t.args t.start _ _ s
  placeholders_checked-Observed [] config raw ctx t s =
      let transformed = transform_args host opts config raw in
      let s' = log host opts debug (bytes "mcpx: call") s in
      let t' : Target = record t {
        arguments = some transformed;
        args = final_args host opts transformed t.args;
      } in
      check_schema-Observed ctx t' s'

  unmarshalled-Observed :
      (raw : Answer E GoMap) (config : ServerConfig) (ctx : Context) (t : Target) (s : Run W E)
      → Observed host opts (unmarshalled host opts raw config ctx t s)
  unfolding unmarshalled
  unmarshalled-Observed (err e) config ctx t s =
      reject-Observed host opts hooked ctx t.server t.tool t.info t.args t.start _ _ s
  unmarshalled-Observed (ok raw) config ctx t s =
      placeholders_checked-Observed (find_invalid_args host.unicode (contents raw)) config raw ctx t
        s

  prepare-Observed :
      (config : ServerConfig) (ctx : Context) (t : Target) (s : Run W E)
      → Observed host opts (prepare host opts config ctx t s)
  unfolding prepare
  prepare-Observed config ctx t s = elim (Bool-cases (is_empty t.args)) [
    | inl e ↦ rw e (check_schema-Observed ctx t s)
    | inr e ↦ rw e (unmarshalled-Observed (unmarshal_map host t.args) config ctx t s)
  ]

  with_state-Observed :
      (state : ServerState) (info : ToolInfo) (entry : ServerEntry) (ctx : Context)
      (server tool args : Text) (start : ℕ) (s : Run W E)
      → Observed host opts (with_state host opts state info entry ctx server tool args start s)
  unfolding with_state
  with_state-Observed down info entry ctx server tool args start s =
      reject-Observed host opts hooked ctx server tool info args start _ _ s
  with_state-Observed connected info entry ctx server tool args start s =
      prepare-Observed entry.config ctx _ s

  with_tool-Observed :
      (found : Option ToolInfo) (entry : ServerEntry) (ctx : Context) (server tool args : Text)
      (start : ℕ) (s : Run W E)
      → Observed host opts (with_tool host opts found entry ctx server tool args start s)
  unfolding with_tool
  with_tool-Observed none entry ctx server tool args start s =
      reject-Observed host opts hooked ctx server tool zero_info args start _ _ s
  with_tool-Observed (some info) entry ctx server tool args start s =
      with_state-Observed entry.state info entry ctx server tool args start s

  with_server-Observed :
      (found : Option ServerEntry) (available : List Text) (ctx : Context) (server tool args : Text)
      (start : ℕ) (s : Run W E)
      → Observed host opts (with_server host opts found available ctx server tool args start s)
  unfolding with_server
  with_server-Observed none available ctx server tool args start s =
      reject-Observed host opts hooked ctx server tool zero_info args start _ _ s
  with_server-Observed (some entry) available ctx server tool args start s =
      with_tool-Observed (find_tool tool entry.tools) entry ctx server tool args start s

-- If there is an AfterCall hook, then at the end of every call the last one was given what the
-- caller gets: the result with no error, or the error.
pub call_tool-Reported :
    {W E : Type 0} (host : Host W E) (mx : Mux W E) (ctx : Context) (server tool args : Text)
    (s : Run W E)
    → is_empty mx.opts.after_call ≡ false
    → Reported
        (call_tool host mx ctx server tool args s).0
        (last_after (call_tool host mx ctx server tool args s).1.trace)
unfolding call_tool
call_tool-Reported host mx ctx server tool args s hooked =
    with_server-Observed host mx.opts hooked (lookup server mx.servers) (server_names mx.servers)
      ctx server tool args _ _
