-- ===== src/Caller/Stages.antt =====
-- caller.go, CallTool from the BeforeCall chain on, cut into the steps between which other goroutines
-- may run: a step is one hook, one access of the cache, one call of the server, or the end.
pub mod Ends
pub mod Alone
pub mod Entered
pub mod Whole
use mcp_multiplexer.Base.{
  ℕ, suc, ◌+◌, ℤ, Text, bytes, if◌then◌else◌, ◌&&◌, not, Option, none, some, List, [], ◌∷◌, length,
}
use mcp_multiplexer.Context.{Context, mark_cache_hit}
use mcp_multiplexer.Tool.{CallResult}
use mcp_multiplexer.Errors.{Failure, hook_error}
use mcp_multiplexer.Host.{Host, Answer, ok, err, error}
use mcp_multiplexer.Options.{Options, BeforeCallHook, ResultTransformHook, before_hook_abort}
use mcp_multiplexer.Cache.Keys.{is_cacheable}
use mcp_multiplexer.Caller.Run.{
  Run, Active, since, log, run_after_call, fire_rejected, safe_record_call, active_cache, cache_get,
  cache_set, tool_ttl, key_fn, effective_timeout, sent,
}
use mcp_multiplexer.Caller.Results.{build_result}
use mcp_multiplexer.Caller.Dispatch.{
  Target, after_now, fail_after, is_active, failure_of, warn_scope, or_context,
}
use mcp_multiplexer.Caller.Accounting.{Route, aborted, short_circuit, cache_hit, dispatched}

module _ {W E : Type 0} (host : Host W E) (opts : Options W E) where
  -- Where a call stands, with the local variables that it still needs. `active` is `activeCache`.
  pub data Stage : Type 0 where
    hooking : List (BeforeCallHook W E) → Target → Context → Stage
    aborting : Target → Context → E → Stage
    answering : Target → Context → CallResult → Stage
    looking : Target → Context → Stage
    getting : Active host opts → Target → Context → Stage
    hitting : Target → Context → CallResult → Stage
    asking : Active host opts → Target → Context → Stage
    transforming :
        List (ResultTransformHook W E)
        → Active host opts
        → Target
        → Context
        → CallResult
        → ℕ
        → Stage
    failing : Target → Context → Option CallResult → Failure E → ℕ → Stage
    storing : Active host opts → Target → Context → CallResult → ℕ → Stage
    setting : Active host opts → Target → Context → CallResult → ℤ → ℕ → Stage
    finishing : Target → Context → CallResult → ℕ → Stage
    ended : Route → Target → Context → Answer (Failure E) CallResult → Stage

  unfoldable pub advance : Stage → Run W E → Stage × Run W E
  advance (hooking [] t ctx) s = (looking t ctx, s)
  advance (hooking (hook ∷ hooks) t ctx) s =
      let ((ctx', short, e), w) = hook ctx t.server t.tool t.info t.args s.world in
      let s' = record s { world = w } in
      elim e [
        | some x ↦ (aborting t ctx x, s')
        | none ↦ elim short [
          | some result ↦ (answering t ctx result, s')
          | none ↦ (hooking hooks t (or_context host opts ctx' ctx), s')
        ]
      ]
  advance (aborting t ctx x) s =
      let s' = fire_rejected host opts ctx t.server t.tool before_hook_abort (hook_error x) s in
      (
        ended aborted t ctx (err (hook_error x)),
        after_now host opts t ctx none (some (hook_error x)) s',
      )
  advance (answering t ctx result) s =
      (ended short_circuit t ctx (ok result), after_now host opts t ctx (some result) none s)
  advance (looking t ctx) s =
      let active = active_cache host opts s in
      if is_active host opts active && is_cacheable t.info
      then (getting active t ctx, warn_scope host opts ctx s)
      else (asking active t ctx, s)
  advance (getting active t ctx) s =
      let (found, s') =
        cache_get host opts active ctx (key_fn host opts ctx t.server t.tool t.args) s in
      elim found [ none ↦ (asking active t ctx, s') | some cached ↦ (hitting t ctx cached, s') ]
  advance (hitting t ctx cached) s = (
    ended cache_hit t ctx (ok cached),
    after_now host opts t (mark_cache_hit ctx) (some cached) none s,
  )
  advance (asking active t ctx) s =
      let timeout = effective_timeout t.server_timeout opts.call_timeout in
      let (answer, w) = host.call_tool ctx timeout t.session t.tool t.arguments s.world in
      let s' = record s { world = w; trace = sent t.server t.tool t.arguments ∷ s.trace } in
      let (dur, s'') = since host opts t.start s' in
      elim answer [
        | err e ↦ (
          failing t ctx none (failure_of host opts t timeout e) dur,
          log host opts error (bytes "mcpx: call failed") s'',
        )
        | ok raw ↦ (transforming opts.result_transform active t ctx (build_result raw) dur, s'')
      ]
  advance (transforming [] active t ctx result dur) s = (storing active t ctx result dur, s)
  advance (transforming (hook ∷ hooks) active t ctx result dur) s =
      let ((result', e), w) = hook ctx t.server t.tool t.info result s.world in
      let s' = record s { world = w } in
      elim e [
        | none ↦ (transforming hooks active t ctx result' dur, s')
        | some x ↦ (failing t ctx (some result') (hook_error x) dur, s')
      ]
  advance (failing t ctx result e dur) s =
      let (answer, s') = fail_after host opts t ctx result e dur s in
      (ended dispatched t ctx answer, s')
  advance (storing active t ctx result dur) s =
      let (ttl, s') = tool_ttl host opts t.info s in
      if is_active host opts active && (is_cacheable t.info && not result.is_error)
      then (setting active t ctx result ttl dur, s')
      else (finishing t ctx result dur, s)
  advance (setting active t ctx result ttl dur) s = (
    finishing t ctx result dur,
    cache_set host opts active ctx (key_fn host opts ctx t.server t.tool t.args) result ttl s,
  )
  advance (finishing t ctx result dur) s =
      let s' =
        run_after_call host opts ctx t.server t.tool t.info t.args (some result) none dur s in
      (ended dispatched t ctx (ok result), safe_record_call host opts t.server t.tool dur none s')
  advance (ended route t ctx answer) s = (ended route t ctx answer, s)

  -- The steps of one call, with what the other goroutines do to the shared state before each.
  unfoldable pub drive : List (Run W E → Run W E) → Stage → Run W E → Stage × Run W E
  drive [] x s = (x, s)
  drive (others ∷ rest) x s = let (x', s') = advance x (others s) in drive rest x' s'
