-- ===== src/Caller/Rejections.antt =====
-- Which error a call returns: a reference that says which calls are refused, and with what, without
-- hooks, cache, server or effects.
use mcp_multiplexer.Base.{
  ℕ, ◌≡◌, refl, Text, Bool, true, false, Option, none, some, List, [], ◌∷◌, lookup, is_empty,
  text_eq, if◌then◌else◌, Bool-cases, inl, inr,
}
use mcp_multiplexer.Json.{GoMap, contents}
use mcp_multiplexer.Context.{Context}
use mcp_multiplexer.Tool.{ToolInfo, CallResult}
use mcp_multiplexer.Errors.{
  Failure, server_not_found, tool_not_found, server_down, invalid_json, invalid_args,
}
use mcp_multiplexer.Host.{Host, Answer, ok, err, unmarshal_map}
use mcp_multiplexer.Validate.{validate_schema, find_invalid_args}
use mcp_multiplexer.Options.{Options}
use mcp_multiplexer.Config.{ServerConfig}
use mcp_multiplexer.Mux.{Mux, ServerEntry, ServerState, connected, down}
use mcp_multiplexer.Mux.Queries.{server_names}
use mcp_multiplexer.Caller.Run.{Run}
use mcp_multiplexer.Caller.Dispatch.{Outcome, Target}
use mcp_multiplexer.Caller.Call.{
  find_tool, reject, schema_checked, check_schema, transform_args, final_args, placeholders_checked,
  unmarshalled, prepare, with_state, with_tool, with_server, call_tool,
}
use mcp_multiplexer.Caller.Accepted.{Accepted, before_loop-Accepted}

abbrev pub Agrees : {E : Type 0} → Option (Failure E) → Answer (Failure E) CallResult → Type 0
Agrees (some e) answer = answer ≡ err e
Agrees none answer = Accepted answer

module _ {W E : Type 0} (host : Host W E) (opts : Options W E) where
  abbrev pub violations : List Text → Option (Failure E)
  violations [] = none
  violations (x ∷ xs) = some (invalid_args [] (x ∷ xs))

  abbrev pub schema_refusal : ToolInfo → Text → Option (Failure E)
  schema_refusal info args =
      if opts.schema_validation
      then violations (validate_schema host.check_schema info.input_schema args)
      else none

  abbrev pub placeholder_refusal :
      List Text → ServerConfig → ToolInfo → GoMap → Text → Option (Failure E)
  placeholder_refusal (x ∷ xs) config info raw args = some (invalid_args (x ∷ xs) [])
  placeholder_refusal [] config info raw args =
      schema_refusal info (final_args host opts (transform_args host opts config raw) args)

  abbrev pub json_refusal : Answer E GoMap → ServerConfig → ToolInfo → Text → Option (Failure E)
  json_refusal (err e) config info args = some (invalid_json e)
  json_refusal (ok raw) config info args =
      placeholder_refusal (find_invalid_args host.unicode (contents raw)) config info raw args

  abbrev pub argument_refusal : ServerConfig → ToolInfo → Text → Option (Failure E)
  argument_refusal config info args =
      if is_empty args
      then schema_refusal info args
      else json_refusal (unmarshal_map host args) config info args

  abbrev pub state_refusal :
      ServerState → ServerConfig → ToolInfo → Text → Text → Option (Failure E)
  state_refusal down config info server args = some (server_down server)
  state_refusal connected config info server args = argument_refusal config info args

  abbrev pub tool_refusal : Option ToolInfo → ServerEntry → Text → Text → Text → Option (Failure E)
  tool_refusal none entry server tool args = some (tool_not_found tool server)
  tool_refusal (some info) entry server tool args =
      state_refusal entry.state entry.config info server args

  abbrev pub server_refusal :
      Option ServerEntry → List Text → Text → Text → Text → Option (Failure E)
  server_refusal none available server tool args = some (server_not_found server available)
  server_refusal (some entry) available server tool args =
      tool_refusal (find_tool tool entry.tools) entry server tool args

  schema_checked-Agrees :
      (errs : List Text) (ctx : Context) (t : Target) (s : Run W E)
      → Agrees (violations errs) (schema_checked host opts errs ctx t s).0
  unfolding schema_checked reject
  schema_checked-Agrees [] ctx t s = before_loop-Accepted host opts opts.before_call t ctx s
  schema_checked-Agrees (x ∷ xs) ctx t s = refl

  if-Agrees :
      (b : Bool) (e : Option (Failure E)) (x y : Outcome host opts)
      → Agrees e x.0
      → Accepted y.0
      → Agrees (if b then e else none) (if b then x else y).0
  if-Agrees true e x y h k = h
  if-Agrees false e x y h k = k

  check_schema-Agrees :
      (ctx : Context) (t : Target) (s : Run W E)
      → Agrees (schema_refusal t.info t.args) (check_schema host opts ctx t s).0
  unfolding check_schema
  check_schema-Agrees ctx t s =
      if-Agrees opts.schema_validation _ _ _
        (schema_checked-Agrees (validate_schema host.check_schema t.info.input_schema t.args) ctx t
          s)
        (before_loop-Accepted host opts opts.before_call t ctx s)

  placeholders_checked-Agrees :
      (bad : List Text) (config : ServerConfig) (raw : GoMap) (ctx : Context) (t : Target)
      (s : Run W E)
      → Agrees
          (placeholder_refusal bad config t.info raw t.args)
          (placeholders_checked host opts bad config raw ctx t s).0
  unfolding placeholders_checked reject
  placeholders_checked-Agrees (x ∷ xs) config raw ctx t s = refl
  placeholders_checked-Agrees [] config raw ctx t s = check_schema-Agrees ctx _ _

  unmarshalled-Agrees :
      (raw : Answer E GoMap) (config : ServerConfig) (ctx : Context) (t : Target) (s : Run W E)
      → Agrees (json_refusal raw config t.info t.args) (unmarshalled host opts raw config ctx t s).0
  unfolding unmarshalled reject
  unmarshalled-Agrees (err e) config ctx t s = refl
  unmarshalled-Agrees (ok raw) config ctx t s =
      placeholders_checked-Agrees (find_invalid_args host.unicode (contents raw)) config raw ctx t s

  prepare-Agrees :
      (config : ServerConfig) (ctx : Context) (t : Target) (s : Run W E)
      → Agrees (argument_refusal config t.info t.args) (prepare host opts config ctx t s).0
  unfolding prepare
  prepare-Agrees config ctx t s = elim (Bool-cases (is_empty t.args)) [
    | inl e ↦ rw e (check_schema-Agrees ctx t s)
    | inr e ↦ rw e (unmarshalled-Agrees (unmarshal_map host t.args) config ctx t s)
  ]

  pub with_state-Agrees :
      (state : ServerState) (info : ToolInfo) (entry : ServerEntry) (ctx : Context)
      (server tool args : Text) (start : ℕ) (s : Run W E)
      → Agrees
          (state_refusal state entry.config info server args)
          (with_state host opts state info entry ctx server tool args start s).0
  unfolding with_state reject
  with_state-Agrees down info entry ctx server tool args start s = refl
  with_state-Agrees connected info entry ctx server tool args start s =
      prepare-Agrees entry.config ctx _ s

  pub with_tool-Agrees :
      (found : Option ToolInfo) (entry : ServerEntry) (ctx : Context) (server tool args : Text)
      (start : ℕ) (s : Run W E)
      → Agrees
          (tool_refusal found entry server tool args)
          (with_tool host opts found entry ctx server tool args start s).0
  unfolding with_tool reject
  with_tool-Agrees none entry ctx server tool args start s = refl
  with_tool-Agrees (some info) entry ctx server tool args start s =
      with_state-Agrees entry.state info entry ctx server tool args start s

  pub with_server-Agrees :
      (found : Option ServerEntry) (available : List Text) (ctx : Context) (server tool args : Text)
      (start : ℕ) (s : Run W E)
      → Agrees
          (server_refusal found available server tool args)
          (with_server host opts found available ctx server tool args start s).0
  unfolding with_server reject
  with_server-Agrees none available ctx server tool args start s = refl
  with_server-Agrees (some entry) available ctx server tool args start s =
      with_tool-Agrees (find_tool tool entry.tools) entry ctx server tool args start s

-- The first of these that holds: the server is not registered; it has no such tool; it is down; the
-- arguments are no JSON object; they hold placeholders; the final ones violate the schema.
abbrev pub refusal :
    {W E : Type 0} (host : Host W E) (mx : Mux W E) → Text → Text → Text → Option (Failure E)
refusal host mx server tool args =
    server_refusal host mx.opts (lookup server mx.servers) (server_names mx.servers) server tool
      args

-- Every call that is refused before the BeforeCall hooks returns the error of the first check that
-- fails, in this order: the server is registered, it has the tool, it is up, the arguments decode,
-- they hold no placeholders, the final ones fit the schema. Every other call returns a result, a
-- hook's error, a timeout or an error of the server.
pub call_tool-Agrees :
    {W E : Type 0} (host : Host W E) (mx : Mux W E) (ctx : Context) (server tool args : Text)
    (s : Run W E)
    → Agrees (refusal host mx server tool args) (call_tool host mx ctx server tool args s).0
unfolding call_tool
call_tool-Agrees host mx ctx server tool args s =
    with_server-Agrees host mx.opts (lookup server mx.servers) (server_names mx.servers) ctx server
      tool args _ _
