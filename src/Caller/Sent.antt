-- ===== src/Caller/Sent.antt =====
-- Which requests a call adds to the trace: none, or one with the arguments of the target.
use mcp_multiplexer.Base.{
  ℕ, ◌≡◌, refl, ap, ◌∙◌, Text, ◌&&◌, not, Option, none, some, List, [], ◌∷◌, arith, is_empty, ◌⊎◌,
  inl, inr, Bool-cases, Option-cases, ℤ, text_eq,
}
use mcp_multiplexer.Json.{GoMap}
use mcp_multiplexer.Context.{Context, mark_cache_hit, cache_scope}
use mcp_multiplexer.Tool.{ToolInfo, CallResult}
use mcp_multiplexer.Errors.{Failure, hook_error}
use mcp_multiplexer.Host.{Host, Answer, ok, err, RawResult, CallError, Level}
use mcp_multiplexer.Options.{
  Options, RejectReason, AfterCallHook, BeforeCallHook, ResultTransformHook,
}
use mcp_multiplexer.Cache.Keys.{is_cacheable}
use mcp_multiplexer.Caller.Run.{
  Run, Event, logged, rejected, after, recorded, sent, log, after_loop, run_after_call,
  fire_rejected, safe_record_call, Active, cache_get, tool_ttl, key_fn, active_cache,
}
use mcp_multiplexer.Caller.Results.{build_result}
use mcp_multiplexer.Caller.Dispatch.{
  Outcome, Target, after_now, fail_after, store, is_active, succeed, transform_loop, failure_of,
  answered, call_upstream, warn_scope, looked_up, cache_lookup, or_context, before_loop,
}
use mcp_multiplexer.Caller.Call.{reject}
use mcp_multiplexer.Caller.Tally.{trace-since, trace-cache_get, trace-cache_set}

-- A request: the server, the tool and the arguments.
abbrev pub Sending : Type 0
Sending = Text × Text × Option GoMap

unfoldable pub sends : {E : Type 0} → List (Event E) → List Sending
sends [] = []
sends (sent server tool args ∷ es) = (server, tool, args) ∷ sends es
sends (after hit args result e ∷ es) = sends es
sends (logged level message ∷ es) = sends es
sends (rejected reason e ∷ es) = sends es
sends (recorded e ∷ es) = sends es

module _ {W E : Type 0} (host : Host W E) (opts : Options W E) where
  sends-after_loop :
      (hooks : List (AfterCallHook W E)) (ctx : Context) (server tool : Text) (info : ToolInfo)
      (args : Text) (result : Option CallResult) (e : Option (Failure E)) (dur : ℕ) (s : Run W E)
      → sends (after_loop host opts hooks ctx server tool info args result e dur s).trace
        ≡ sends s.trace
  unfolding after_loop sends
  sends-after_loop [] ctx server tool info args result e dur s = refl
  sends-after_loop (h ∷ hooks) ctx server tool info args result e dur s =
      sends-after_loop hooks ctx server tool info args result e dur _

  sends-run_after_call :
      (ctx : Context) (server tool : Text) (info : ToolInfo) (args : Text)
      (result : Option CallResult) (e : Option (Failure E)) (dur : ℕ) (s : Run W E)
      → sends (run_after_call host opts ctx server tool info args result e dur s).trace
        ≡ sends s.trace
  unfolding run_after_call
  sends-run_after_call = sends-after_loop opts.after_call

  sends-fire_rejected :
      (ctx : Context) (server tool : Text) (reason : RejectReason) (e : Failure E) (s : Run W E)
      → sends (fire_rejected host opts ctx server tool reason e s).trace ≡ sends s.trace
  unfolding fire_rejected sends
  sends-fire_rejected ctx server tool reason e s = ground arith

  sends-record :
      (server tool : Text) (dur : ℕ) (e : Option (Failure E)) (s : Run W E)
      → sends (safe_record_call host opts server tool dur e s).trace ≡ sends s.trace
  unfolding safe_record_call sends
  sends-record server tool dur e s = refl

  pub sends-log :
      (level : Level) (message : Text) (s : Run W E)
      → sends (log host opts level message s).trace ≡ sends s.trace
  unfolding log sends
  sends-log level message s = refl

  sends-tool_ttl :
      (info : ToolInfo) (s : Run W E) → sends (tool_ttl host opts info s).1.trace ≡ sends s.trace
  unfolding tool_ttl log sends
  sends-tool_ttl info s = ground arith

  sends-after_now :
      (t : Target) (ctx : Context) (result : Option CallResult) (e : Option (Failure E))
      (s : Run W E)
      → sends (after_now host opts t ctx result e s).trace ≡ sends s.trace
  unfolding after_now
  sends-after_now t ctx result e s = rw sends-run_after_call (rw trace-since refl)

  sends-fail_after :
      (t : Target) (ctx : Context) (result : Option CallResult) (e : Failure E) (dur : ℕ)
      (s : Run W E)
      → sends (fail_after host opts t ctx result e dur s).1.trace ≡ sends s.trace
  unfolding fail_after
  sends-fail_after t ctx result e dur s = rw sends-record (rw sends-run_after_call refl)

  sends-store :
      (t : Target) (ctx : Context) (active : Active host opts) (result : CallResult) (s : Run W E)
      → sends (store host opts t ctx active result s).trace ≡ sends s.trace
  unfolding store
  sends-store t ctx active result s = rw trace-cache_set (sends-tool_ttl t.info s)

  sends-succeed :
      (t : Target) (ctx : Context) (active : Active host opts) (result : CallResult) (dur : ℕ)
      (s : Run W E)
      → sends (succeed host opts t ctx active result dur s).1.trace ≡ sends s.trace
  unfolding succeed
  sends-succeed t ctx active result dur s =
      elim (Bool-cases
        (is_active host opts active && (is_cacheable t.info && not result.is_error))) [
          | inl e ↦ rw e (rw sends-record (rw sends-run_after_call (rw sends-store refl)))
          | inr e ↦ rw e (rw sends-record (rw sends-run_after_call refl))
        ]

  sends-transform_loop :
      (hooks : List (ResultTransformHook W E)) (t : Target) (ctx : Context)
      (active : Active host opts) (result : CallResult) (dur : ℕ) (s : Run W E)
      → sends (transform_loop host opts hooks t ctx active result dur s).1.trace ≡ sends s.trace
  unfolding transform_loop
  sends-transform_loop [] t ctx active result dur s = sends-succeed t ctx active result dur s
  sends-transform_loop (hook ∷ hooks) t ctx active result dur s =
      let out = hook ctx t.server t.tool t.info result s.world in
      let s' : Run W E = record s { world = out.1 } in
      elim (Option-cases out.0.1) [
        | inl e ↦ rw (e, transform_loop) (sends-transform_loop hooks t ctx active out.0.0 dur s')
        | inr (x, e) ↦
            rw (e, transform_loop) (sends-fail_after t ctx (some out.0.0) (hook_error x) dur s')
      ]

  sends-answered :
      (t : Target) (ctx : Context) (active : Active host opts) (timeout : ℤ)
      (answer : Answer (CallError E) (Option RawResult)) (dur : ℕ) (s : Run W E)
      → sends (answered host opts t ctx active timeout answer dur s).1.trace ≡ sends s.trace
  unfolding answered
  sends-answered t ctx active timeout (err e) dur s =
      sends-fail_after t ctx none (failure_of host opts t timeout e) dur _ ∙ rw sends-log refl
  sends-answered t ctx active timeout (ok raw) dur s =
      sends-transform_loop opts.result_transform t ctx active (build_result raw) dur s

  abbrev pub asked : Target → Sending
  asked t = (t.server, t.tool, t.arguments)

  -- Nothing was sent since `s`, or the request of the target was, once.
  abbrev pub SendsOne : Target → Run W E → Outcome host opts → Type 0
  SendsOne t s out =
      (sends out.1.trace ≡ sends s.trace) ⊎ (sends out.1.trace ≡ asked t ∷ sends s.trace)

  sends-call_upstream :
      (t : Target) (ctx : Context) (active : Active host opts) (s : Run W E)
      → sends (call_upstream host opts t ctx active s).1.trace ≡ asked t ∷ sends s.trace
  unfolding call_upstream
  sends-call_upstream t ctx active s = rw sends-answered (rw trace-since (unfold sends in refl))

  sends-warn_scope :
      (ctx : Context) (s : Run W E) → sends (warn_scope host opts ctx s).trace ≡ sends s.trace
  unfolding warn_scope
  sends-warn_scope ctx s = elim (Bool-cases (is_empty (cache_scope ctx) && not s.scope_warned)) [
    | inl e ↦ rw e (sends-log _ _ _)
    | inr e ↦ rw e refl
  ]

  looked_up-SendsOne :
      (t : Target) (ctx : Context) (active : Active host opts) (found : Option CallResult × Run W E)
      → SendsOne t found.1 (looked_up host opts t ctx active found)
  unfolding looked_up
  looked_up-SendsOne t ctx active (none, s) = inr (sends-call_upstream t ctx active s)
  looked_up-SendsOne t ctx active (some cached, s) =
      inl (sends-after_now t (mark_cache_hit ctx) (some cached) none s)

  since_quiet :
      (t : Target) (s s' : Run W E) (out : Outcome host opts)
      → sends s'.trace ≡ sends s.trace
      → SendsOne t s' out
      → SendsOne t s out
  since_quiet t s s' out e (inl h) = inl (h ∙ e)
  since_quiet t s s' out e (inr h) = inr (h ∙ ap (◌∷◌ (asked t)) e)

  cache_lookup-SendsOne :
      (t : Target) (ctx : Context) (s : Run W E) → SendsOne t s (cache_lookup host opts t ctx s)
  unfolding cache_lookup
  cache_lookup-SendsOne t ctx s =
      let active = active_cache host opts s in
      elim (Bool-cases (is_active host opts active && is_cacheable t.info)) [
        | inr e ↦ rw e (inr (sends-call_upstream t ctx active s))
        | inl e ↦
            let s' = warn_scope host opts ctx s in
            let found =
              cache_get host opts active ctx (key_fn host opts ctx t.server t.tool t.args) s' in
            rw e (
              since_quiet t s found.1 (looked_up host opts t ctx active found)
                (ap sends (trace-cache_get host opts active ctx _ s') ∙ sends-warn_scope ctx s)
                (looked_up-SendsOne t ctx active found))
      ]

  pub before_loop-SendsOne :
      (hooks : List (BeforeCallHook W E)) (t : Target) (ctx : Context) (s : Run W E)
      → SendsOne t s (before_loop host opts hooks t ctx s)
  unfolding before_loop
  before_loop-SendsOne [] t ctx s = cache_lookup-SendsOne t ctx s
  before_loop-SendsOne (hook ∷ hooks) t ctx s =
      let out = hook ctx t.server t.tool t.info t.args s.world in
      let s' : Run W E = record s { world = out.1 } in
      elim (Option-cases out.0.2) [
        | inr (x, e) ↦ inl (rw (e, before_loop) (rw sends-after_now (rw sends-fire_rejected refl)))
        | inl e ↦ elim (Option-cases out.0.1) [
          | inr (result, e') ↦ inl (rw (e, before_loop, e') (rw sends-after_now refl))
          | inl e' ↦
              rw (e, before_loop, e')
                (before_loop-SendsOne hooks t (or_context host opts out.0.0 ctx) s')
        ]
      ]

  pub reject-Quiet :
      (ctx : Context) (server tool : Text) (info : ToolInfo) (args : Text) (start : ℕ)
      (reason : RejectReason) (e : Failure E) (s : Run W E)
      → sends (reject host opts ctx server tool info args start reason e s).1.trace ≡ sends s.trace
  unfolding reject
  reject-Quiet ctx server tool info args start reason e s =
      rw sends-record
        (rw trace-since (rw sends-run_after_call (rw trace-since (rw sends-fire_rejected refl))))
