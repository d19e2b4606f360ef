-- ===== src/Tests/Repeated.antt =====
-- A call that the built-in cache answers, because an equal call came before.
use mcp_multiplexer.Base.{
  ℕ, ◌≡◌, refl, Text, text_eq, text_beq, bytes, none, [], ◌∷◌, pos, List, arith, insert, lookup,
  remove,
}
use mcp_multiplexer.Context.{cache_scope}
use mcp_multiplexer.Tool.{CallResult, empty_result}
use mcp_multiplexer.Host.{ok}
use mcp_multiplexer.Options.{default_options}
use mcp_multiplexer.Cache.Keys.{is_cacheable, default_cache_key, canonical_json}
use mcp_multiplexer.Cache.Lru.{new_lru_cache}
use mcp_multiplexer.Cache.Lru.Methods.{new_lru_cache-IsValid}
use mcp_multiplexer.Cache.Lru.History.{Call, get_call}
use mcp_multiplexer.Caller.Run.{
  Run, builtin, tool_ttl, key_fn, cache_set, log, run_after_call, after_loop, safe_record_call,
}
use mcp_multiplexer.Caller.Dispatch.{Target, is_active, succeed, store, warn_scope, cache_lookup}
use mcp_multiplexer.Caller.Tally.{tally}
use mcp_multiplexer.Caller.Accounting.{cache_hit, spend}
use mcp_multiplexer.Caller.Cached
use mcp_multiplexer.Caller.Cached.{after_calls, key_of, stored_at, stored_for}
use mcp_multiplexer.Tests.Outside.{outside}
use mcp_multiplexer.Tests.Calls.{get_pod, mx, fresh}

abbrev pub target : Target
target = record {
  server = bytes "k8s";
  tool = bytes "get";
  info = get_pod;
  session = 1;
  server_timeout = pos 0;
  arguments = none;
  args = [];
  start = 0;
}

abbrev result : CallResult
result = record empty_result { text = bytes "done" }

-- A lookup of another call in between.
abbrev between : List Call
between = get_call (bytes "other") 2 ∷ []

abbrev stored : Run ℕ Text
stored = (succeed outside mx.opts target [] builtin result 0 fresh).1

abbrev later : Run ℕ Text
later = record stored { builtin_cache = after_calls between stored.builtin_cache }

steps : Unit {0}
unfolding text_beq insert lookup remove cache_scope default_options is_cacheable default_cache_key
    canonical_json warn_scope log tool_ttl key_fn succeed store is_active cache_set run_after_call
    after_loop safe_record_call new_lru_cache
steps = tt

cache_lookup-succeed_example :
    ((cache_lookup outside mx.opts target [] later).0 ≡ ok result)
    × (tally (cache_lookup outside mx.opts target [] later).1.trace
        ≡ spend mx.opts cache_hit (tally later.trace))
unfolding steps
cache_lookup-succeed_example =
    Cached.cache_lookup-succeed outside mx.opts target target [] [] result 0 (new_lru_cache 2)
      between fresh later refl refl refl refl refl refl (new_lru_cache-IsValid 2 (omega arith)) refl
      refl (refl, tt) (omega arith) refl (omega arith)
