-- ===== src/Caller/Cached.antt =====
-- A call after a call: the result that the one stored in the built-in cache answers the other.
use mcp_multiplexer.Base.{
  ℕ, ◌≤◌, ◌<◌, ◌+◌, ◌≡◌, refl, ap, ◌∙◌, Text, text_eq, true, false, Option, none, some, List, [],
  ◌∷◌, length, arith, ℤ, pos, leb_ℤ, pos_part, ◌&&◌, not,
}
use mcp_multiplexer.Context.{Context, mark_cache_hit}
use mcp_multiplexer.Tool.{ToolInfo, CallResult}
use mcp_multiplexer.Errors.{Failure}
use mcp_multiplexer.Host.{Host, ok}
use mcp_multiplexer.Options.{Options, AfterCallHook}
use mcp_multiplexer.Cache.Lru.{Lru, get, set}
use mcp_multiplexer.Cache.Lru.Valid.{IsValid}
use mcp_multiplexer.Cache.Lru.History.{Call, run}
use mcp_multiplexer.Cache.Lru.Survival.{OtherKeys, set_survives}
use mcp_multiplexer.Cache.Keys.{is_cacheable}
use mcp_multiplexer.Caller.Run.{
  Run, after_loop, run_after_call, safe_record_call, Active, builtin, active_cache, cache_get,
  cache_set, log, tool_ttl, key_fn,
}
use mcp_multiplexer.Caller.Dispatch.{
  Target, store, is_active, succeed, warn_scope, looked_up, cache_lookup,
}
use mcp_multiplexer.Caller.Tally.{tally, trace-cache_get}
use mcp_multiplexer.Caller.Accounting.{cache_hit, spend, tally-after_now, tally-warn_scope}

-- The built-in cache, where there is one, after these calls.
abbrev pub after_calls : List Call → Option Lru → Option Lru
after_calls calls none = none
after_calls calls (some c) = some (run c calls)

module _ {W E : Type 0} (host : Host W E) (opts : Options W E) where
  -- The key of a call.
  abbrev pub key_of : Target → Context → Text
  key_of t ctx = key_fn host opts ctx t.server t.tool t.args

  pub cache-after_loop :
      (hooks : List (AfterCallHook W E)) (ctx : Context) (server tool : Text) (info : ToolInfo)
      (args : Text) (result : Option CallResult) (e : Option (Failure E)) (dur : ℕ) (s : Run W E)
      → (after_loop host opts hooks ctx server tool info args result e dur s).builtin_cache
        ≡ s.builtin_cache
  unfolding after_loop
  cache-after_loop [] ctx server tool info args result e dur s = refl
  cache-after_loop (h ∷ hooks) ctx server tool info args result e dur s =
      cache-after_loop hooks ctx server tool info args result e dur _

  pub cache-tool_ttl :
      (info : ToolInfo) (s : Run W E)
      → (tool_ttl host opts info s).1.builtin_cache ≡ s.builtin_cache
  unfolding tool_ttl log
  cache-tool_ttl info s = ground arith

  pub cache-warn_scope :
      (ctx : Context) (s : Run W E) → (warn_scope host opts ctx s).builtin_cache ≡ s.builtin_cache
  unfolding warn_scope log
  cache-warn_scope ctx s = ground arith

  -- When the result of a successful call is stored, and for how long.
  abbrev pub stored_at : ToolInfo → Run W E → ℕ
  stored_at info s = (host.now (tool_ttl host opts info s).1.world).0

  abbrev pub stored_for : ToolInfo → Run W E → ℤ
  stored_for info s = (tool_ttl host opts info s).0

  cache-store :
      (t : Target) (ctx : Context) (result : CallResult) (c : Lru) (s : Run W E)
      → s.builtin_cache ≡ some c
      → (store host opts t ctx builtin result s).builtin_cache
        ≡ some (set c (key_of t ctx) (some result) (stored_for t.info s) (stored_at t.info s))
  unfolding store cache_set
  cache-store t ctx result c s h = rw (cache-tool_ttl t.info s ∙ h) refl

  cache-succeed :
      (t : Target) (ctx : Context) (result : CallResult) (dur : ℕ) (c : Lru) (s : Run W E)
      → (is_cacheable t.info && not result.is_error) ≡ true
      → s.builtin_cache ≡ some c
      → (succeed host opts t ctx builtin result dur s).1.builtin_cache
        ≡ some (set c (key_of t ctx) (some result) (stored_for t.info s) (stored_at t.info s))
  unfolding succeed run_after_call safe_record_call is_active
  cache-succeed t ctx result dur c s storable h =
      cache-after_loop opts.after_call ctx t.server t.tool t.info t.args (some result) none dur _
      ∙ rw storable (cache-store t ctx result c s h)

  looked_up-found :
      (t : Target) (ctx : Context) (active : Active host opts) (r : CallResult)
      (found : Option CallResult × Run W E)
      → found.0 ≡ some r
      → ((looked_up host opts t ctx active found).0 ≡ ok r)
        × (tally (looked_up host opts t ctx active found).1.trace
            ≡ spend opts cache_hit (tally found.1.trace))
  unfolding looked_up spend
  looked_up-found t ctx active r (none, s) h = absurd (ground arith)
  looked_up-found t ctx active r (some cached, s) h =
      (ground arith, tally-after_now host opts t (mark_cache_hit ctx) (some cached) none s)

  active_cache-builtin :
      (d : Lru) (s : Run W E)
      → opts.cache_disabled ≡ false
      → opts.cache ≡ none
      → s.builtin_cache ≡ some d
      → active_cache host opts s ≡ builtin
  unfolding active_cache
  active_cache-builtin d s enabled own h = rw (enabled, own, h) refl

  pub cache_get-builtin :
      (ctx : Context) (key : Text) (d : Lru) (s : Run W E)
      → s.builtin_cache ≡ some d
      → (cache_get host opts builtin ctx key s).0 ≡ (get d key (host.now s.world).0).1
  unfolding cache_get
  cache_get-builtin ctx key d s h = rw h refl

  -- A lookup that the built-in cache answers.
  cache_lookup-held :
      (t : Target) (ctx : Context) (r : CallResult) (d : Lru) (s : Run W E)
      → opts.cache_disabled ≡ false
      → opts.cache ≡ none
      → is_cacheable t.info ≡ true
      → s.builtin_cache ≡ some d
      → (get d (key_of t ctx) (host.now (warn_scope host opts ctx s).world).0).1 ≡ some r
      → ((cache_lookup host opts t ctx s).0 ≡ ok r)
        × (tally (cache_lookup host opts t ctx s).1.trace ≡ spend opts cache_hit (tally s.trace))
  unfolding cache_lookup is_active
  cache_lookup-held t ctx r d s enabled own cacheable h held =
      let s' = warn_scope host opts ctx s in
      let found = cache_get host opts builtin ctx (key_of t ctx) s' in
      let hit =
        looked_up-found t ctx builtin r found
          (cache_get-builtin ctx (key_of t ctx) d s' (cache-warn_scope ctx s ∙ h) ∙ held) in
      rw (active_cache-builtin d s enabled own h, cacheable)
        (
          hit.0,
          hit.1
              ∙ ap (spend opts cache_hit) (
                  ap tally (trace-cache_get host opts builtin ctx (key_of t ctx) s')
                  ∙ tally-warn_scope host opts ctx s),
        )

  -- A call that ends well, with a result that is no error, of a tool that may be cached: a later
  -- lookup under the same key, on the built-in cache, returns that result without asking the server,
  -- if the time to live is positive and has not passed, and fewer calls than the cache has room for,
  -- all on other keys, reached the cache in between.
  pub cache_lookup-succeed :
      (t t' : Target) (ctx ctx' : Context) (result : CallResult) (dur : ℕ) (c : Lru)
      (calls : List Call) (s s' : Run W E)
      → opts.cache_disabled ≡ false
      → opts.cache ≡ none
      → is_cacheable t.info ≡ true
      → is_cacheable t'.info ≡ true
      → result.is_error ≡ false
      → s.builtin_cache ≡ some c
      → IsValid c
      → leb_ℤ (stored_for t.info s) (pos 0) ≡ false
      → s'.builtin_cache
        ≡ after_calls calls (succeed host opts t ctx builtin result dur s).1.builtin_cache
      → OtherKeys (key_of t ctx) calls
      → length calls < c.size
      → key_of t' ctx' ≡ key_of t ctx
      → (host.now (warn_scope host opts ctx' s').world).0
        ≤ stored_at t.info s + pos_part (stored_for t.info s)
      → ((cache_lookup host opts t' ctx' s').0 ≡ ok result)
        × (tally (cache_lookup host opts t' ctx' s').1.trace
            ≡ spend opts cache_hit (tally s'.trace))
  cache_lookup-succeed t t' ctx ctx' result dur c calls s s' enabled own cacheable cacheable' good h
        valid positive between others room same live =
      let d = set c (key_of t ctx) (some result) (stored_for t.info s) (stored_at t.info s) in
      let later = (host.now (warn_scope host opts ctx' s').world).0 in
      cache_lookup-held t' ctx' result (run d calls) s' enabled own cacheable'
        (between ∙ ap (after_calls calls) (cache-succeed t ctx result dur c s (ground arith) h))
        (ap (λ k. (get (run d calls) k later).1) same
          ∙ set_survives c (key_of t ctx) result (stored_for t.info s) (stored_at t.info s) later
              calls valid positive others room live)
