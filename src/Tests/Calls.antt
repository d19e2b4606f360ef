-- ===== src/Tests/Calls.antt =====
-- Calls of tools against a small multiplexer and outside world.
use mcp_multiplexer.Base.{
  ℕ, ◌≡◌, refl, Text, text_eq, text_beq, bytes, true, false, none, some, [], ◌∷◌, lookup, insert,
  remove, is_ascii, lower_byte,
}
use mcp_multiplexer.Json.Access.{get, put}
use mcp_multiplexer.Context.{cache_scope, is_cache_hit, mark_cache_hit}
use mcp_multiplexer.Tool.{ToolInfo, zero_info, clone}
use mcp_multiplexer.Host.{unmarshal_map}
use mcp_multiplexer.Options.{AfterCallHook, default_options}
use mcp_multiplexer.Cache.Lru.{Lru, new_lru_cache}
use mcp_multiplexer.Mux.{Mux, ServerEntry, connected, down}
use mcp_multiplexer.Validate.{find_invalid_args, walk_args, is_placeholder, field_path}
use mcp_multiplexer.Transform.{
  merged_singular_map, apply_all, apply_field_map, apply_field_map_to, to_lower,
}
use mcp_multiplexer.Caller.Results.{build_result}
use mcp_multiplexer.Cache.Keys.{is_cacheable, default_cache_key, canonical_json}
use mcp_multiplexer.Cache.Lru
use mcp_multiplexer.Cache.Lru.{set, evict, get_indexed, back, move_to_front}
use mcp_multiplexer.Caller.Run.{
  Run, since, log, after_loop, run_after_call, fire_rejected, safe_record_call, active_cache,
  cache_get, cache_set, tool_ttl, key_fn, effective_timeout,
}
use mcp_multiplexer.Caller.Dispatch.{
  after_now, store, is_active, succeed, transform_loop, answered, call_upstream, warn_scope,
  looked_up, cache_lookup, before_loop,
}
use mcp_multiplexer.Caller.Call.{
  find_tool, reject, check_schema, transform_args, final_args, placeholders_checked, unmarshalled,
  prepare, with_state, with_tool, with_server,
}
use mcp_multiplexer.Caller.Call.{call_tool}
use mcp_multiplexer.Caller.Tally.{tally}
use mcp_multiplexer.Caller.Accounting.{Route, Fits, spend}
use mcp_multiplexer.Caller.Paths
use mcp_multiplexer.Caller.Observed.{last_after, Reported}
use mcp_multiplexer.Caller.Agreement
use mcp_multiplexer.Caller.Sent.{sends}
use mcp_multiplexer.Caller.Arguments
use mcp_multiplexer.Caller.Arguments.{Prepared}
use mcp_multiplexer.Caller.Call.{find_tool}
use mcp_multiplexer.Json.{GoMap}
use mcp_multiplexer.Base.{◌⊎◌, Option}
use mcp_multiplexer.Policy.{deny_destructive}
use mcp_multiplexer.Policy.Guards
use mcp_multiplexer.Tests.Outside.{outside, document}
use mcp_multiplexer.Tests.Settings.{remote}

abbrev pub get_pod : ToolInfo
get_pod = record zero_info {
  server = bytes "k8s";
  name = bytes "get";
  read_only = true;
  idempotent = true;
}

abbrev pub entry : ServerEntry
entry = record {
  config = remote;
  session = some 1;
  tools = get_pod ∷ [];
  state = connected;
  reconnecting = false;
  refresh_ch = none;
}

abbrev watcher : AfterCallHook ℕ Text
watcher = λ ctx server tool info args result e dur w. w

abbrev pub mx : Mux ℕ Text
mx = record {
  servers = (bytes "k8s", entry) ∷ (bytes "vm", record entry { state = down }) ∷ [];
  kind_hints = [];
  opts = record (default_options none) { after_call = watcher ∷ [] };
}

abbrev pub fresh : Run ℕ Text
fresh = record {
  world = 0;
  builtin_cache = some (new_lru_cache 2);
  scope_warned = false;
  ttl_warned = [];
  trace = [];
}

-- A call is sent once, and counted once by the hook and the metric.
call_tool-Accounted_example :
    (r : Route) × Fits r (call_tool outside mx [] (bytes "k8s") (bytes "get") (bytes "{}") fresh).0
    × (tally (call_tool outside mx [] (bytes "k8s") (bytes "get") (bytes "{}") fresh).1.trace
        ≡ spend mx.opts r (tally fresh.trace))
call_tool-Accounted_example =
    Paths.call_tool-Accounted outside mx [] (bytes "k8s") (bytes "get") (bytes "{}") fresh

calls : Unit {0}
unfolding text_beq is_ascii lower_byte lookup insert remove get put default_options new_lru_cache
    set evict back move_to_front clone Lru.get cache_scope is_cache_hit mark_cache_hit call_tool
    with_server find_tool with_tool with_state prepare unmarshal_map unmarshalled find_invalid_args
    walk_args is_placeholder field_path placeholders_checked transform_args merged_singular_map
    apply_all apply_field_map apply_field_map_to to_lower final_args log check_schema before_loop
    cache_lookup active_cache is_active is_cacheable warn_scope default_cache_key canonical_json
    key_fn cache_get looked_up call_upstream effective_timeout answered transform_loop build_result
    succeed store tool_ttl cache_set since run_after_call after_loop safe_record_call after_now
    reject fire_rejected tally
calls = tt

abbrev first : Run ℕ Text
first = (call_tool outside mx [] (bytes "k8s") (bytes "get") (bytes "{}") fresh).1

-- A second call is answered from the cache: only the hook sees it.
second_run :
    tally (call_tool outside mx [] (bytes "k8s") (bytes "get") (bytes "{}") first).1.trace
    ≡ record { afters = 2; sends = 1; records = 1; rejects = 0 }
unfolding calls
second_run = refl

-- A call of a server that is down is refused, and counted.
down_run :
    tally (call_tool outside mx [] (bytes "vm") (bytes "get") [] fresh).1.trace
    ≡ record { afters = 1; sends = 0; records = 1; rejects = 0 }
unfolding calls
down_run = refl

call_tool-Reported_example :
    Reported
      (call_tool outside mx [] (bytes "k8s") (bytes "get") (bytes "{}") fresh).0
      (last_after (call_tool outside mx [] (bytes "k8s") (bytes "get") (bytes "{}") fresh).1.trace)
call_tool-Reported_example =
    Agreement.call_tool-Reported outside mx [] (bytes "k8s") (bytes "get") (bytes "{}") fresh refl

abbrev pub drop_pod : ToolInfo
drop_pod = record get_pod { name = bytes "drop"; read_only = false; destructive = true }

abbrev risky : ServerEntry
risky = record entry { tools = get_pod ∷ drop_pod ∷ [] }

-- A multiplexer with a hook that lets all pass, then DenyDestructive.
abbrev careful : Mux ℕ Text
careful = record mx {
  servers = (bytes "k8s", risky) ∷ [];
  opts = record mx.opts {
    before_call =
        (λ ctx server tool info args w. ((none, none, none), w)) ∷ deny_destructive (λ m. m) ∷ [];
  };
}

deny_destructive-Unsent_example :
    (tally (call_tool outside careful [] (bytes "k8s") (bytes "drop") [] fresh).1.trace).sends
    ≡ (tally fresh.trace).sends
unfolding calls
deny_destructive-Unsent_example =
    Guards.deny_destructive-Unsent (λ m. m) outside careful [] (bytes "k8s") (bytes "drop") [] fresh
      risky drop_pod ((λ ctx server tool info args w. ((none, none, none), w)) ∷ []) [] refl refl
      refl refl

call_tool-sends_example :
    (sends (call_tool outside mx [] (bytes "k8s") (bytes "get") (bytes "{}") fresh).1.trace
      ≡ sends fresh.trace)
    ⊎ ((e : ServerEntry) × (info : ToolInfo) × (arguments : Option GoMap) × (lookup
            (bytes "k8s")
            mx.servers
          ≡ some e)
        × (e.state ≡ connected)
        × (find_tool (bytes "get") e.tools ≡ some info)
        × Prepared outside mx.opts e.config (bytes "{}") arguments
        × (sends (call_tool outside mx [] (bytes "k8s") (bytes "get") (bytes "{}") fresh).1.trace
            ≡ (bytes "k8s", bytes "get", arguments) ∷ sends fresh.trace))
call_tool-sends_example =
    Arguments.call_tool-sends outside mx [] (bytes "k8s") (bytes "get") (bytes "{}") fresh

-- The request of the first call carries the decoded object; the second call sends none.
sends_run :
    sends (call_tool outside mx [] (bytes "k8s") (bytes "get") (bytes "{}") first).1.trace
    ≡ (bytes "k8s", bytes "get", some (some document)) ∷ []
unfolding calls sends
sends_run = refl

-- The arguments `null` are a nil map, and stay one.
null_run : transform_args outside mx.opts remote none ≡ none
unfolding calls
null_run = refl
