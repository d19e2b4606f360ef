-- ===== src/Caller/Accounting.antt =====
-- What every call of CallTool adds up to: the hooks, the request, the metric and the rejection, on
-- every path.
use mcp_multiplexer.Base.{
  ℕ, suc, ◌+◌, ◌≡◌, refl, ap, subst, ◌∙◌, Text, ◌&&◌, not, Option, none, some, List, [], ◌∷◌,
  length, is_empty, Bool-cases, Option-cases, inl, inr, ℤ,
}
use mcp_multiplexer.Context.{Context, mark_cache_hit, cache_scope}
use mcp_multiplexer.Tool.{ToolInfo, CallResult}
use mcp_multiplexer.Errors.{
  Failure, hook_error, server_not_found, tool_not_found, server_down, invalid_json, invalid_args,
}
use mcp_multiplexer.Host.{Host, Answer, ok, err, RawResult, CallError}
use mcp_multiplexer.Options.{Options, RejectReason, BeforeCallHook, ResultTransformHook}
use mcp_multiplexer.Cache.Keys.{is_cacheable}
use mcp_multiplexer.Caller.Run.{Run, Active, cache_get, key_fn, active_cache}
use mcp_multiplexer.Caller.Results.{build_result}
use mcp_multiplexer.Caller.Dispatch.{
  Outcome, Target, after_now, fail_after, store, is_active, succeed, transform_loop, failure_of,
  answered, call_upstream, warn_scope, looked_up, cache_lookup, or_context, before_loop,
}
use mcp_multiplexer.Caller.Call.{reject}
use mcp_multiplexer.Caller.Accepted.{Accepted, call_upstream-Accepted}
use mcp_multiplexer.Caller.Tally.{
  Tally, tally, if_some, tally-run_after_call, tally-fire_rejected, tally-record, trace-since,
  tally-log, trace-cache_get, trace-cache_set, tally-tool_ttl,
}

-- The ways in which a call can end: refused before the hooks, aborted by a hook, answered by a hook,
-- answered from the cache, answered (or failed) by the server.
pub data Route : Type 0 where
  refused aborted short_circuit cache_hit dispatched : Route

-- What a route adds: every AfterCall hook on each; a rejection where the call is refused or aborted;
-- a request where the server is asked; a metric where the call is refused or the server is asked.
module _ {W E : Type 0} (opts : Options W E) where
  unfoldable pub spend : Route → Tally → Tally
  spend refused t = record {
    afters = length opts.after_call + t.afters;
    sends = t.sends;
    records = suc t.records;
    rejects = if_some opts.on_rejected_call + t.rejects;
  }
  spend aborted t = record {
    afters = length opts.after_call + t.afters;
    sends = t.sends;
    records = t.records;
    rejects = if_some opts.on_rejected_call + t.rejects;
  }
  spend short_circuit t = record t { afters = length opts.after_call + t.afters }
  spend cache_hit t = record t { afters = length opts.after_call + t.afters }
  spend dispatched t = record {
    afters = length opts.after_call + t.afters;
    sends = suc t.sends;
    records = suc t.records;
    rejects = t.rejects;
  }

-- The errors of a call that is refused before the hooks.
abbrev pub IsRefusal : {E : Type 0} → Failure E → Type 0
IsRefusal (server_not_found server available) = Unit
IsRefusal (tool_not_found tool server) = Unit
IsRefusal (server_down server) = Unit
IsRefusal (invalid_json e) = Unit
IsRefusal (invalid_args bad schema) = Unit
IsRefusal e = ⊥

-- What a call gives on a route: an error of the checks where it is refused, the hook's error where a
-- hook aborts it, a result from a hook or the cache; and from the server a result, an error of a
-- ResultTransform hook, a timeout, or an error of the server.
abbrev pub Fits : {E : Type 0} → Route → Answer (Failure E) CallResult → Type 0
Fits {E} refused answer = (e : Failure E) × (answer ≡ err e) × IsRefusal e
Fits {E} aborted answer = (e : E) × (answer ≡ err (hook_error e))
Fits short_circuit answer = (r : CallResult) × (answer ≡ ok r)
Fits cache_hit answer = (r : CallResult) × (answer ≡ ok r)
Fits dispatched answer = Accepted answer

module _ {W E : Type 0} (host : Host W E) (opts : Options W E) where
  -- The outcome of a stage that starts with the tally `t` is accounted for by one of the routes: the
  -- route fits what the call gives, and the tally is what it adds.
  abbrev pub Accounted : Tally → Outcome host opts → Type 0
  Accounted t out = (r : Route) × Fits r out.0 × (tally out.1.trace ≡ spend opts r t)

  pub tally-after_now :
      (t : Target) (ctx : Context) (result : Option CallResult) (e : Option (Failure E))
      (s : Run W E)
      → tally (after_now host opts t ctx result e s).trace
        ≡ record (tally s.trace) { afters = length opts.after_call + (tally s.trace).afters }
  unfolding after_now
  tally-after_now t ctx result e s = rw tally-run_after_call (rw trace-since refl)

  -- What the end of an answered call adds: the hooks and the metric.
  abbrev closing : Tally → Tally
  closing t = record t { afters = length opts.after_call + t.afters; records = suc t.records }

  tally-fail_after :
      (t : Target) (ctx : Context) (result : Option CallResult) (e : Failure E) (dur : ℕ)
      (s : Run W E)
      → tally (fail_after host opts t ctx result e dur s).1.trace ≡ closing (tally s.trace)
  unfolding fail_after
  tally-fail_after t ctx result e dur s = rw tally-record (rw tally-run_after_call refl)

  tally-store :
      (t : Target) (ctx : Context) (active : Active host opts) (result : CallResult) (s : Run W E)
      → tally (store host opts t ctx active result s).trace ≡ tally s.trace
  unfolding store
  tally-store t ctx active result s = rw trace-cache_set (tally-tool_ttl host opts t.info s)

  tally-succeed :
      (t : Target) (ctx : Context) (active : Active host opts) (result : CallResult) (dur : ℕ)
      (s : Run W E)
      → tally (succeed host opts t ctx active result dur s).1.trace ≡ closing (tally s.trace)
  unfolding succeed
  tally-succeed t ctx active result dur s =
      elim (Bool-cases
        (is_active host opts active && (is_cacheable t.info && not result.is_error))) [
          | inl e ↦ rw e (rw tally-record (rw tally-run_after_call (rw tally-store refl)))
          | inr e ↦ rw e (rw tally-record (rw tally-run_after_call refl))
        ]

  tally-transform_loop :
      (hooks : List (ResultTransformHook W E)) (t : Target) (ctx : Context)
      (active : Active host opts) (result : CallResult) (dur : ℕ) (s : Run W E)
      → tally (transform_loop host opts hooks t ctx active result dur s).1.trace
        ≡ closing (tally s.trace)
  unfolding transform_loop
  tally-transform_loop [] t ctx active result dur s = tally-succeed t ctx active result dur s
  tally-transform_loop (hook ∷ hooks) t ctx active result dur s =
      let out = hook ctx t.server t.tool t.info result s.world in
      elim (Option-cases out.0.1) [
        | inl e ↦
            rw (e, transform_loop)
              (tally-transform_loop hooks t ctx active out.0.0 dur (record s { world = out.1 }))
        | inr (x, e) ↦
            rw (e, transform_loop)
              (tally-fail_after t ctx (some out.0.0) (hook_error x) dur
                (record s { world = out.1 }))
      ]

  tally-answered :
      (t : Target) (ctx : Context) (active : Active host opts) (timeout : ℤ)
      (answer : Answer (CallError E) (Option RawResult)) (dur : ℕ) (s : Run W E)
      → tally (answered host opts t ctx active timeout answer dur s).1.trace
        ≡ closing (tally s.trace)
  unfolding answered
  tally-answered t ctx active timeout (err e) dur s =
      tally-fail_after t ctx none (failure_of host opts t timeout e) dur _ ∙ rw tally-log refl
  tally-answered t ctx active timeout (ok raw) dur s =
      tally-transform_loop opts.result_transform t ctx active (build_result raw) dur s

  tally-call_upstream :
      (t : Target) (ctx : Context) (active : Active host opts) (s : Run W E)
      → tally (call_upstream host opts t ctx active s).1.trace
        ≡ spend opts dispatched (tally s.trace)
  unfolding call_upstream
  tally-call_upstream t ctx active s =
      rw tally-answered (rw trace-since (unfold tally spend in refl))

  pub tally-warn_scope :
      (ctx : Context) (s : Run W E) → tally (warn_scope host opts ctx s).trace ≡ tally s.trace
  unfolding warn_scope
  tally-warn_scope ctx s = elim (Bool-cases (is_empty (cache_scope ctx) && not s.scope_warned)) [
    | inl e ↦ rw e (tally-log host opts _ _ _)
    | inr e ↦ rw e refl
  ]

  looked_up-Accounted :
      (t : Target) (ctx : Context) (active : Active host opts) (found : Option CallResult × Run W E)
      → Accounted (tally found.1.trace) (looked_up host opts t ctx active found)
  unfolding looked_up spend
  looked_up-Accounted t ctx active (none, s) = (
    dispatched,
    call_upstream-Accepted host opts t ctx active s,
    tally-call_upstream t ctx active s,
  )
  looked_up-Accounted t ctx active (some cached, s) =
      (cache_hit, (cached, refl), tally-after_now t (mark_cache_hit ctx) (some cached) none s)

  cache_lookup-Accounted :
      (t : Target) (ctx : Context) (s : Run W E)
      → Accounted (tally s.trace) (cache_lookup host opts t ctx s)
  unfolding cache_lookup
  cache_lookup-Accounted t ctx s =
      let active = active_cache host opts s in
      elim (Bool-cases (is_active host opts active && is_cacheable t.info)) [
        | inr e ↦ rw e (
          dispatched,
          call_upstream-Accepted host opts t ctx active s,
          tally-call_upstream t ctx active s,
        )
        | inl e ↦
            let s' = warn_scope host opts ctx s in
            let found =
              cache_get host opts active ctx (key_fn host opts ctx t.server t.tool t.args) s' in
            rw e (
              subst (λ y. Accounted y (looked_up host opts t ctx active found))
                (ap tally (trace-cache_get host opts active ctx _ s') ∙ tally-warn_scope ctx s)
                (looked_up-Accounted t ctx active found))
      ]

  pub before_loop-Accounted :
      (hooks : List (BeforeCallHook W E)) (t : Target) (ctx : Context) (s : Run W E)
      → Accounted (tally s.trace) (before_loop host opts hooks t ctx s)
  unfolding before_loop spend
  before_loop-Accounted [] t ctx s = cache_lookup-Accounted t ctx s
  before_loop-Accounted (hook ∷ hooks) t ctx s =
      let out = hook ctx t.server t.tool t.info t.args s.world in
      elim (Option-cases out.0.2) [
        | inr (x, e) ↦
            rw (e, before_loop)
              (aborted, (x, refl), rw tally-after_now (rw tally-fire_rejected refl))
        | inl e ↦ elim (Option-cases out.0.1) [
          | inr (result, e') ↦
              rw (e, before_loop, e') (short_circuit, (result, refl), rw tally-after_now refl)
          | inl e' ↦
              rw (e, before_loop, e')
                (before_loop-Accounted hooks t (or_context host opts out.0.0 ctx)
                  (record s { world = out.1 }))
        ]
      ]

  pub reject-Accounted :
      (ctx : Context) (server tool : Text) (info : ToolInfo) (args : Text) (start : ℕ)
      (reason : RejectReason) (e : Failure E) (s : Run W E)
      → IsRefusal e
      → Accounted (tally s.trace) (reject host opts ctx server tool info args start reason e s)
  unfolding reject spend
  reject-Accounted ctx server tool info args start reason e s is = (
    refused,
    (e, refl, is),
    rw tally-record
        (rw trace-since (rw tally-run_after_call (rw trace-since (rw tally-fire_rejected refl)))),
  )
