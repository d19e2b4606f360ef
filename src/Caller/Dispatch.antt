-- ===== src/Caller/Dispatch.antt =====
-- The second half of CallTool: the BeforeCall chain, the cache, the call of the server, the
-- ResultTransform chain, and what is stored. Stage by stage, each ending in the next.
use mcp_multiplexer.Base.{
  ◌++◌, ℕ, Text, text_eq, bytes, if◌then◌else◌, Bool, true, false, ◌&&◌, not, Option, none, some,
  List, [], ◌∷◌, is_empty, ℤ,
}
use mcp_multiplexer.Json.{GoMap}
use mcp_multiplexer.Context.{Context, cache_scope, mark_cache_hit}
use mcp_multiplexer.Tool.{ToolInfo, CallResult}
use mcp_multiplexer.Errors.{Failure, hook_error, call_timeout, upstream_error}
use mcp_multiplexer.Host.{Host, Answer, ok, err, Session, RawResult, CallError, warn, error}
use mcp_multiplexer.Options.{Options, before_hook_abort, BeforeCallHook, ResultTransformHook}
use mcp_multiplexer.Cache.Keys.{is_cacheable}
use mcp_multiplexer.Caller.Run.{
  Run, sent, since, log, run_after_call, fire_rejected, safe_record_call, Active, no_cache,
  active_cache, cache_get, cache_set, tool_ttl, key_fn, effective_timeout,
}
use mcp_multiplexer.Caller.Results.{build_result}

-- What is fixed once the server, the tool and the arguments are settled. `server_timeout` is
-- `entry.config.CallTimeout`; `arguments` is `params.Arguments`, `args` is `finalArgs`.
pub record Target : Type 0 where
  pub server : Text
  pub tool : Text
  pub info : ToolInfo
  pub session : Session
  pub server_timeout : ℤ
  pub arguments : Option GoMap
  pub args : Text
  pub start : ℕ

module _ {W E : Type 0} (host : Host W E) (opts : Options W E) where
  abbrev pub Outcome : Type 0
  Outcome = Answer (Failure E) CallResult × Run W E

  -- `mx.runAfterCall(ctx, …, time.Since(start))`
  unfoldable pub after_now :
      Target → Context → Option CallResult → Option (Failure E) → Run W E → Run W E
  after_now t ctx result e s =
      let (dur, s') = since host opts t.start s in
      run_after_call host opts ctx t.server t.tool t.info t.args result e dur s'

  -- The end of an upstream call that failed, or whose result a transform refused: AfterCall and the
  -- metric, with the duration taken when the server answered.
  unfoldable pub fail_after :
      Target → Context → Option CallResult → Failure E → ℕ → Run W E → Outcome
  fail_after t ctx result e dur s =
      let s' = run_after_call host opts ctx t.server t.tool t.info t.args result (some e) dur s in
      (err e, safe_record_call host opts t.server t.tool dur (some e) s')

  -- "cache store"
  unfoldable pub store : Target → Context → Active host opts → CallResult → Run W E → Run W E
  store t ctx active result s =
      let (ttl, s') = tool_ttl host opts t.info s in
      cache_set host opts active ctx (key_fn host opts ctx t.server t.tool t.args) result ttl s'

  unfoldable pub is_active : Active host opts → Bool
  is_active no_cache = false
  is_active _ = true

  -- From "cache store" to the end.
  unfoldable pub succeed : Target → Context → Active host opts → CallResult → ℕ → Run W E → Outcome
  unfolding is_active
  succeed t ctx active result dur s =
      let s' =
        if is_active active && (is_cacheable t.info && not result.is_error)
        then store t ctx active result s
        else s in
      let s'' =
        run_after_call host opts ctx t.server t.tool t.info t.args (some result) none dur s' in
      (ok result, safe_record_call host opts t.server t.tool dur none s'')

  -- "ResultTransform chain"
  unfoldable pub transform_loop :
      List (ResultTransformHook W E)
      → Target
      → Context
      → Active host opts
      → CallResult
      → ℕ
      → Run W E
      → Outcome
  transform_loop [] t ctx active result dur s = succeed t ctx active result dur s
  transform_loop (hook ∷ hooks) t ctx active result dur s =
      let ((result', e), w) = hook ctx t.server t.tool t.info result s.world in
      let next = transform_loop hooks t ctx active result' dur (record s { world = w }) in
      elim e [
        | none ↦ next
        | some x ↦ fail_after t ctx (some result') (hook_error x) dur (record s { world = w })
      ]

  unfoldable pub failure_of : Target → ℤ → CallError E → Failure E
  failure_of t timeout e =
      if e.deadline then call_timeout t.server t.tool timeout else upstream_error t.server e.error

  unfoldable pub answered :
      Target
      → Context
      → Active host opts
      → ℤ
      → Answer (CallError E) (Option RawResult)
      → ℕ
      → Run W E
      → Outcome
  answered t ctx active timeout (err e) dur s =
      fail_after t ctx none (failure_of t timeout e) dur
        (log host opts error (bytes "mcpx: call failed") s)
  answered t ctx active timeout (ok raw) dur s =
      transform_loop opts.result_transform t ctx active (build_result raw) dur s

  -- "upstream call"
  unfoldable pub call_upstream : Target → Context → Active host opts → Run W E → Outcome
  call_upstream t ctx active s =
      let timeout = effective_timeout t.server_timeout opts.call_timeout in
      let (answer, w) = host.call_tool ctx timeout t.session t.tool t.arguments s.world in
      let s' = record s { world = w; trace = sent t.server t.tool t.arguments ∷ s.trace } in
      let (dur, s'') = since host opts t.start s' in answered t ctx active timeout answer dur s''

  -- The warning that no scope is set, given once.
  unfoldable pub warn_scope : Context → Run W E → Run W E
  warn_scope ctx s =
      if is_empty (cache_scope ctx) && not s.scope_warned
      then log host opts warn
          (bytes "mcpx: cache enabled but no scope set; results may leak across tenants "
            ++ (226 ∷ 128 ∷ 148 ∷ bytes " use WithCacheScope(ctx, id)"))
          (record s { scope_warned = true })
      else s

  unfoldable pub looked_up :
      Target → Context → Active host opts → Option CallResult × Run W E → Outcome
  looked_up t ctx active (none, s) = call_upstream t ctx active s
  looked_up t ctx active (some cached, s) =
      (ok cached, after_now t (mark_cache_hit ctx) (some cached) none s)

  -- "cache lookup"
  unfoldable pub cache_lookup : Target → Context → Run W E → Outcome
  unfolding is_active
  cache_lookup t ctx s =
      let active = active_cache host opts s in
      if is_active active && is_cacheable t.info
      then (let s' = warn_scope ctx s in
          looked_up t ctx active
            (cache_get host opts active ctx (key_fn host opts ctx t.server t.tool t.args) s'))
      else call_upstream t ctx active s

  unfoldable pub or_context : Option Context → Context → Context
  or_context none ctx = ctx
  or_context (some ctx') ctx = ctx'

  -- "BeforeCall chain"
  unfoldable pub before_loop : List (BeforeCallHook W E) → Target → Context → Run W E → Outcome
  before_loop [] t ctx s = cache_lookup t ctx s
  before_loop (hook ∷ hooks) t ctx s =
      let ((ctx', short, e), w) = hook ctx t.server t.tool t.info t.args s.world in
      let s' = record s { world = w } in
      let next = before_loop hooks t (or_context ctx' ctx) s' in
      elim e [
        | some x ↦ (
          err (hook_error x),
          after_now t ctx none (some (hook_error x))
              (fire_rejected host opts ctx t.server t.tool before_hook_abort (hook_error x) s'),
        )
        | none ↦ elim short [
          | some result ↦ (ok result, after_now t ctx (some result) none s')
          | none ↦ next
        ]
      ]
