-- ===== src/Caller/Run.antt =====
-- The state that a call threads, and the small steps of caller.go: hooks, callbacks, metrics, the
-- cache in use, the time to live.
use mcp_multiplexer.Base.{
  ℕ, ◌-◌, Text, text_eq, bytes, if◌then◌else◌, Bool, Option, none, some, List, [], ◌∷◌, ◌++◌,
  contains, lookup, ℤ, pos, ltb_ℤ,
}
use mcp_multiplexer.Json.{GoMap}
use mcp_multiplexer.Context.{Context, is_cache_hit}
use mcp_multiplexer.Tool.{ToolInfo, CallResult}
use mcp_multiplexer.Errors.{Failure}
use mcp_multiplexer.Host.{Host, Level, warn}
use mcp_multiplexer.Options.{Options, RejectReason, AfterCallHook, UserCache, KeyFunc}
use mcp_multiplexer.Cache.Lru.{Lru}
use mcp_multiplexer.Cache.Lru
use mcp_multiplexer.Cache.Keys.{default_cache_key}

-- What the outside sees of a call, an event for each callback, log line, metric and request.
pub data Event (E : Type 0) : Type 0 where
  logged : Level → Text → Event E
  rejected : RejectReason → Failure E → Event E
  after : Bool → Text → Option CallResult → Option (Failure E) → Event E
  recorded : Option (Failure E) → Event E
  sent : Text → Text → Option GoMap → Event E

-- The events stand most recent first.
pub record Run (W E : Type 0) : Type 0 where
  pub world : W
  pub builtin_cache : Option Lru
  pub scope_warned : Bool
  pub ttl_warned : List Text
  pub trace : List (Event E)

module _ {W E : Type 0} (host : Host W E) (opts : Options W E) where
  -- `time.Since(start)`; the clock is monotonic.
  unfoldable pub since : ℕ → Run W E → ℕ × Run W E
  since start s = let (t, w) = host.now s.world in (t - start, record s { world = w })

  unfoldable pub log : Level → Text → Run W E → Run W E
  log level message s = record s {
    world = opts.logger level message s.world;
    trace = logged level message ∷ s.trace;
  }

  -- The loop of `runAfterCall`.
  unfoldable pub after_loop :
      List (AfterCallHook W E)
      → Context
      → Text
      → Text
      → ToolInfo
      → Text
      → Option CallResult
      → Option (Failure E)
      → ℕ
      → Run W E
      → Run W E
  after_loop [] ctx server tool info args result e dur s = s
  after_loop (hook ∷ hooks) ctx server tool info args result e dur s =
      after_loop hooks ctx server tool info args result e dur (record s {
        world = hook ctx server tool info args result e dur s.world;
        trace = after (is_cache_hit ctx) args result e ∷ s.trace;
      })

  unfoldable pub run_after_call :
      Context
      → Text
      → Text
      → ToolInfo
      → Text
      → Option CallResult
      → Option (Failure E)
      → ℕ
      → Run W E
      → Run W E
  run_after_call = after_loop opts.after_call

  unfoldable pub fire_rejected :
      Context → Text → Text → RejectReason → Failure E → Run W E → Run W E
  fire_rejected ctx server tool reason e s = elim opts.on_rejected_call [
    | none ↦ s
    | some f ↦ record s {
      world = f ctx server tool reason e s.world;
      trace = rejected reason e ∷ s.trace;
    }
  ]

  unfoldable pub safe_record_call : Text → Text → ℕ → Option (Failure E) → Run W E → Run W E
  safe_record_call server tool dur e s = record s {
    world = opts.metrics.record_call server tool dur e s.world;
    trace = recorded e ∷ s.trace;
  }

  -- The cache that `activeCache` returns.
  pub data Active : Type 0 where
    no_cache : Active
    user : UserCache W E → Active
    builtin : Active

  builtin_if : Option Lru → Active
  builtin_if none = no_cache
  builtin_if (some c) = builtin

  unfoldable pub active_cache : Run W E → Active
  unfolding builtin_if
  active_cache s =
      if opts.cache_disabled
      then no_cache
      else elim opts.cache [ none ↦ builtin_if s.builtin_cache | some c ↦ user c ]

  get_builtin : Option Lru → Text → Run W E → Option CallResult × Run W E
  get_builtin none key s = (none, s)
  get_builtin (some c) key s =
      let (t, w) = host.now s.world in
      let (c', found) = Lru.get c key t in (found, record s { world = w; builtin_cache = some c' })

  -- `Get` of the cache in use
  unfoldable pub cache_get : Active → Context → Text → Run W E → Option CallResult × Run W E
  unfolding get_builtin
  cache_get no_cache ctx key s = (none, s)
  cache_get (user c) ctx key s =
      let (found, w) = c.get ctx key s.world in (found, record s { world = w })
  cache_get builtin ctx key s = get_builtin s.builtin_cache key s

  set_builtin : Option Lru → Text → CallResult → ℤ → Run W E → Run W E
  set_builtin none key result ttl s = s
  set_builtin (some c) key result ttl s =
      let (t, w) = host.now s.world in
      record s { world = w; builtin_cache = some (Lru.set c key (some result) ttl t) }

  -- `Set` of the cache in use
  unfoldable pub cache_set : Active → Context → Text → CallResult → ℤ → Run W E → Run W E
  unfolding set_builtin
  cache_set no_cache ctx key result ttl s = s
  cache_set (user c) ctx key result ttl s = record s { world = c.set ctx key result ttl s.world }
  cache_set builtin ctx key result ttl s = set_builtin s.builtin_cache key result ttl s

  -- A bad time to live is warned of once for each server and tool.
  warn_ttl : Text → Run W E → Run W E
  unfolding log
  warn_ttl key s =
      if contains key s.ttl_warned
      then s
      else log warn (bytes "mcpx: invalid cache_ttl, using default")
          (record s { ttl_warned = key ∷ s.ttl_warned })

  parsed_ttl : Text → Option ℤ → Run W E → ℤ × Run W E
  unfolding warn_ttl
  parsed_ttl key (some d) s = (d, s)
  parsed_ttl key none s = (opts.cache_ttl, warn_ttl key s)

  unfoldable pub tool_ttl : ToolInfo → Run W E → ℤ × Run W E
  unfolding parsed_ttl
  tool_ttl info s = elim (lookup (bytes "cache_ttl") info.custom) [
    | none ↦ (opts.cache_ttl, s)
    | some raw ↦ parsed_ttl (info.server ++ (bytes "/" ++ info.name)) (host.parse_duration raw) s
  ]

  unfoldable pub key_fn : KeyFunc
  key_fn = elim opts.cache_key [ none ↦ default_cache_key host | some f ↦ f ]

-- `effectiveTimeout`
unfoldable pub effective_timeout : ℤ → ℤ → ℤ
effective_timeout per_server global = if ltb_ℤ (pos 0) per_server then per_server else global
