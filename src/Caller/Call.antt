-- ===== src/Caller/Call.antt =====
-- The first half of CallTool: the server, the tool and the arguments, each with its rejection.
use mcp_multiplexer.Base.{
  ℕ, Text, text_eq, bytes, ◌==◌, if◌then◌else◌, Option, none, some, List, [], ◌∷◌, is_empty, lookup,
}
use mcp_multiplexer.Json.{GoMap, contents, map_value}
use mcp_multiplexer.Context.{Context}
use mcp_multiplexer.Tool.{ToolInfo, zero_info}
use mcp_multiplexer.Transform.{merged_singular_map, apply_all, apply_field_map_to}
use mcp_multiplexer.Validate.{find_invalid_args, validate_schema}
use mcp_multiplexer.Errors.{
  Failure, server_not_found, tool_not_found, server_down, invalid_json, invalid_args,
}
use mcp_multiplexer.Host.{Host, Answer, ok, err, unmarshal_map, debug, Session}
use mcp_multiplexer.Options
use mcp_multiplexer.Options.{Options, RejectReason}
use mcp_multiplexer.Config.{ServerConfig}
use mcp_multiplexer.Mux.{Mux, ServerEntry, ServerState, connected, down}
use mcp_multiplexer.Mux.Queries.{server_names}
use mcp_multiplexer.Caller.Run.{Run, since, log, run_after_call, fire_rejected, safe_record_call}
use mcp_multiplexer.Caller.Dispatch.{Outcome, Target, before_loop}

-- The loop that looks for the tool.
unfoldable pub find_tool : Text → List ToolInfo → Option ToolInfo
find_tool name [] = none
find_tool name (ti ∷ tools) = if ti.name == name then some ti else find_tool name tools

module _ {W E : Type 0} (host : Host W E) (opts : Options W E) where
  -- The four calls that end each rejected call.
  unfoldable pub reject :
      Context
      → Text
      → Text
      → ToolInfo
      → Text
      → ℕ
      → RejectReason
      → Failure E
      → Run W E
      → Outcome host opts
  reject ctx server tool info args start reason e s =
      let s1 = fire_rejected host opts ctx server tool reason e s in
      let (dur, s2) = since host opts start s1 in
      let s3 = run_after_call host opts ctx server tool info args none (some e) dur s2 in
      let (dur', s4) = since host opts start s3 in
      (err e, safe_record_call host opts server tool dur' (some e) s4)

  unfoldable pub schema_checked : List Text → Context → Target → Run W E → Outcome host opts
  schema_checked [] ctx t s = before_loop host opts opts.before_call t ctx s
  schema_checked (x ∷ xs) ctx t s =
      reject ctx t.server t.tool t.info t.args t.start Options.invalid_args
        (invalid_args [] (x ∷ xs)) s

  -- The schema check, if it is enabled.
  unfoldable pub check_schema : Context → Target → Run W E → Outcome host opts
  check_schema ctx t s =
      if opts.schema_validation
      then schema_checked (validate_schema host.check_schema t.info.input_schema t.args) ctx t s
      else before_loop host opts opts.before_call t ctx s

  -- The arguments that are sent: all transformers, then the field map.
  unfoldable pub transform_args : ServerConfig → GoMap → GoMap
  transform_args config raw =
      let singular = merged_singular_map opts.resource_singular config.resource_singular in
      apply_field_map_to
        (apply_all host.unicode config.args_transformers raw opts.custom_transformers singular)
        config.field_map

  or_args : Option Text → Text → Text
  or_args none args = args
  or_args (some b) args = b

  unfoldable pub final_args : GoMap → Text → Text
  unfolding or_args
  final_args transformed args = or_args (host.marshal (map_value transformed)) args

  unfoldable pub placeholders_checked :
      List Text → ServerConfig → GoMap → Context → Target → Run W E → Outcome host opts
  placeholders_checked (x ∷ xs) config raw ctx t s =
      reject ctx t.server t.tool t.info t.args t.start Options.invalid_args
        (invalid_args (x ∷ xs) []) s
  placeholders_checked [] config raw ctx t s =
      let transformed = transform_args config raw in
      check_schema ctx
        (record t { arguments = some transformed; args = final_args transformed t.args })
        (log host opts debug (bytes "mcpx: call") s)

  unfoldable pub unmarshalled :
      Answer E GoMap → ServerConfig → Context → Target → Run W E → Outcome host opts
  unmarshalled (err e) config ctx t s =
      reject ctx t.server t.tool t.info t.args t.start Options.invalid_args (invalid_json e) s
  unmarshalled (ok raw) config ctx t s =
      placeholders_checked (find_invalid_args host.unicode (contents raw)) config raw ctx t s

  -- "args transform"
  unfoldable pub prepare : ServerConfig → Context → Target → Run W E → Outcome host opts
  prepare config ctx t s =
      if is_empty t.args
      then check_schema ctx t s
      else unmarshalled (unmarshal_map host t.args) config ctx t s

  -- A connected entry has a session; without one the SDK would be called through a nil pointer,
  -- which is written here as a session that does not exist.
  abbrev pub session_of : Option Session → Session
  session_of none = 0
  session_of (some s) = s

  -- The test on the snapshot of the entry's state.
  unfoldable pub with_state :
      ServerState
      → ToolInfo
      → ServerEntry
      → Context
      → Text
      → Text
      → Text
      → ℕ
      → Run W E
      → Outcome host opts
  with_state down info entry ctx server tool args start s =
      reject ctx server tool info args start Options.server_down (server_down server) s
  with_state connected info entry ctx server tool args start s =
      prepare entry.config ctx
        (record {
          server = server;
          tool = tool;
          info = info;
          session = session_of entry.session;
          server_timeout = entry.config.call_timeout;
          arguments = none;
          args = args;
          start = start;
        })
        s

  unfoldable pub with_tool :
      Option ToolInfo → ServerEntry → Context → Text → Text → Text → ℕ → Run W E → Outcome host opts
  with_tool none entry ctx server tool args start s =
      reject ctx server tool zero_info args start Options.unknown_tool (tool_not_found tool server)
        s
  with_tool (some info) entry ctx server tool args start s =
      with_state entry.state info entry ctx server tool args start s

  unfoldable pub with_server :
      Option ServerEntry
      → List Text
      → Context
      → Text
      → Text
      → Text
      → ℕ
      → Run W E
      → Outcome host opts
  with_server none available ctx server tool args start s =
      reject ctx server tool zero_info args start Options.unknown_server
        (server_not_found server available) s
  with_server (some entry) available ctx server tool args start s =
      with_tool (find_tool tool entry.tools) entry ctx server tool args start s

-- `CallTool`
unfoldable pub call_tool :
    {W E : Type 0} (host : Host W E) (mx : Mux W E)
    → Context
    → Text
    → Text
    → Text
    → Run W E
    → Outcome host mx.opts
call_tool host mx ctx server tool args s =
    let (start, w) = host.now s.world in
    with_server host mx.opts (lookup server mx.servers) (server_names mx.servers) ctx server tool
      args start (record s { world = w })
