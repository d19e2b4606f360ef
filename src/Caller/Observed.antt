-- ===== src/Caller/Observed.antt =====
-- What AfterCall hooks see at the end of a call, next to what the caller gets: the stages from the
-- BeforeCall chain on.
use mcp_multiplexer.Base.{
  ℕ, ◌≡◌, refl, ◌∙◌, Text, false, ◌&&◌, Option, none, some, List, [], ◌∷◌, arith, is_empty,
  Bool-cases, Option-cases, inl, inr, ℤ, if◌then◌else◌,
}
use mcp_multiplexer.Context.{Context, is_cache_hit, mark_cache_hit}
use mcp_multiplexer.Tool.{ToolInfo, CallResult}
use mcp_multiplexer.Errors.{Failure, hook_error}
use mcp_multiplexer.Host.{Host, Answer, ok, err, RawResult, CallError}
use mcp_multiplexer.Options.{
  Options, RejectReason, AfterCallHook, BeforeCallHook, ResultTransformHook,
}
use mcp_multiplexer.Cache.Keys.{is_cacheable}
use mcp_multiplexer.Caller.Run.{
  Run, Event, logged, rejected, after, recorded, sent, after_loop, run_after_call, safe_record_call,
  since, Active, cache_get, key_fn, active_cache,
}
use mcp_multiplexer.Caller.Results.{build_result}
use mcp_multiplexer.Caller.Dispatch.{
  Outcome, Target, after_now, fail_after, is_active, succeed, transform_loop, answered,
  call_upstream, warn_scope, looked_up, cache_lookup, or_context, before_loop,
}
use mcp_multiplexer.Caller.Call.{reject}

-- The result and the error that the last AfterCall hook was given.
unfoldable pub last_after :
    {E : Type 0} → List (Event E) → Option (Option CallResult × Option (Failure E))
last_after [] = none
last_after (after hit args result e ∷ es) = some (result, e)
last_after (logged level message ∷ es) = last_after es
last_after (rejected reason e ∷ es) = last_after es
last_after (recorded e ∷ es) = last_after es
last_after (sent server tool args ∷ es) = last_after es

-- A result that is returned was seen, with no error; an error that is returned was seen.
abbrev pub Reported :
    {E : Type 0}
    → Answer (Failure E) CallResult
    → Option (Option CallResult × Option (Failure E))
    → Type 0
Reported (ok r) seen = seen ≡ some (some r, none)
Reported (err e) seen = (result : Option CallResult) × (seen ≡ some (result, some e))

module _ {W E : Type 0} (host : Host W E) (opts : Options W E) where
  last-after_loop :
      (hooks : List (AfterCallHook W E)) (ctx : Context) (server tool : Text) (info : ToolInfo)
      (args : Text) (result : Option CallResult) (e : Option (Failure E)) (dur : ℕ) (s : Run W E)
      → last_after (after_loop host opts hooks ctx server tool info args result e dur s).trace
        ≡ (if is_empty hooks then last_after s.trace else some (result, e))
  unfolding after_loop last_after
  last-after_loop [] ctx server tool info args result e dur s = refl
  last-after_loop (h ∷ hooks) ctx server tool info args result e dur s = ground (
    arith,
    last-after_loop hooks ctx server tool info args result e dur (record s {
      world = h ctx server tool info args result e dur s.world;
      trace = after (is_cache_hit ctx) args result e ∷ s.trace;
    }),
  )

  abbrev pub Observed : Outcome host opts → Type 0
  Observed out = Reported out.0 (last_after out.1.trace)

  module _ (hooked : is_empty opts.after_call ≡ false) where
    last-run_after_call :
        (ctx : Context) (server tool : Text) (info : ToolInfo) (args : Text)
        (result : Option CallResult) (e : Option (Failure E)) (dur : ℕ) (s : Run W E)
        → last_after (run_after_call host opts ctx server tool info args result e dur s).trace
          ≡ some (result, e)
    unfolding run_after_call
    last-run_after_call ctx server tool info args result e dur s =
        last-after_loop opts.after_call ctx server tool info args result e dur s ∙ rw hooked refl

    last-after_now :
        (t : Target) (ctx : Context) (result : Option CallResult) (e : Option (Failure E))
        (s : Run W E)
        → last_after (after_now host opts t ctx result e s).trace ≡ some (result, e)
    unfolding after_now
    last-after_now t ctx result e s =
        last-run_after_call ctx t.server t.tool t.info t.args result e _ _

    last-closing :
        (ctx : Context) (server tool : Text) (info : ToolInfo) (args : Text)
        (result : Option CallResult) (e d : Option (Failure E)) (dur dur' : ℕ) (s : Run W E)
        → last_after
            (safe_record_call host opts server tool dur' d
              (run_after_call host opts ctx server tool info args result e dur s)).trace
          ≡ some (result, e)
    unfolding safe_record_call last_after
    last-closing ctx server tool info args result e d dur dur' s =
        last-run_after_call ctx server tool info args result e dur s

    fail_after-Observed :
        (t : Target) (ctx : Context) (result : Option CallResult) (e : Failure E) (dur : ℕ)
        (s : Run W E)
        → Observed (fail_after host opts t ctx result e dur s)
    unfolding fail_after
    fail_after-Observed t ctx result e dur s =
        (result, last-closing ctx t.server t.tool t.info t.args result (some e) (some e) dur dur s)

    succeed-Observed :
        (t : Target) (ctx : Context) (active : Active host opts) (result : CallResult) (dur : ℕ)
        (s : Run W E)
        → Observed (succeed host opts t ctx active result dur s)
    unfolding succeed
    succeed-Observed t ctx active result dur s =
        last-closing ctx t.server t.tool t.info t.args (some result) none none dur dur _

    transform_loop-Observed :
        (hooks : List (ResultTransformHook W E)) (t : Target) (ctx : Context)
        (active : Active host opts) (result : CallResult) (dur : ℕ) (s : Run W E)
        → Observed (transform_loop host opts hooks t ctx active result dur s)
    unfolding transform_loop
    transform_loop-Observed [] t ctx active result dur s =
        succeed-Observed t ctx active result dur s
    transform_loop-Observed (hook ∷ hooks) t ctx active result dur s =
        let out = hook ctx t.server t.tool t.info result s.world in
        let s' : Run W E = record s { world = out.1 } in
        elim (Option-cases out.0.1) [
          | inl e ↦
              rw (e, transform_loop) (transform_loop-Observed hooks t ctx active out.0.0 dur s')
          | inr (x, e) ↦
              rw (e, transform_loop)
                (fail_after-Observed t ctx (some out.0.0) (hook_error x) dur s')
        ]

    answered-Observed :
        (t : Target) (ctx : Context) (active : Active host opts) (timeout : ℤ)
        (answer : Answer (CallError E) (Option RawResult)) (dur : ℕ) (s : Run W E)
        → Observed (answered host opts t ctx active timeout answer dur s)
    unfolding answered
    answered-Observed t ctx active timeout (err e) dur s = fail_after-Observed t ctx none _ dur _
    answered-Observed t ctx active timeout (ok raw) dur s =
        transform_loop-Observed opts.result_transform t ctx active (build_result raw) dur s

    call_upstream-Observed :
        (t : Target) (ctx : Context) (active : Active host opts) (s : Run W E)
        → Observed (call_upstream host opts t ctx active s)
    unfolding call_upstream
    call_upstream-Observed t ctx active s = answered-Observed t ctx active _ _ _ _

    looked_up-Observed :
        (t : Target) (ctx : Context) (active : Active host opts)
        (found : Option CallResult × Run W E)
        → Observed (looked_up host opts t ctx active found)
    unfolding looked_up
    looked_up-Observed t ctx active (none, s) = call_upstream-Observed t ctx active s
    looked_up-Observed t ctx active (some cached, s) =
        last-after_now t (mark_cache_hit ctx) (some cached) none s

    cache_lookup-Observed :
        (t : Target) (ctx : Context) (s : Run W E) → Observed (cache_lookup host opts t ctx s)
    unfolding cache_lookup
    cache_lookup-Observed t ctx s =
        let active = active_cache host opts s in
        elim (Bool-cases (is_active host opts active && is_cacheable t.info)) [
          | inr e ↦ rw e (call_upstream-Observed t ctx active s)
          | inl e ↦ rw e (
              looked_up-Observed t ctx active (
                cache_get host opts active ctx (key_fn host opts ctx t.server t.tool t.args)
                  (warn_scope host opts ctx s)))
        ]

    pub before_loop-Observed :
        (hooks : List (BeforeCallHook W E)) (t : Target) (ctx : Context) (s : Run W E)
        → Observed (before_loop host opts hooks t ctx s)
    unfolding before_loop
    before_loop-Observed [] t ctx s = cache_lookup-Observed t ctx s
    before_loop-Observed (hook ∷ hooks) t ctx s =
        let out = hook ctx t.server t.tool t.info t.args s.world in
        let s' : Run W E = record s { world = out.1 } in
        elim (Option-cases out.0.2) [
          | inr (x, e) ↦
              rw (e, before_loop) (none, last-after_now t ctx none (some (hook_error x)) _)
          | inl e ↦ elim (Option-cases out.0.1) [
            | inr (result, e') ↦
                rw (e, before_loop, e') (last-after_now t ctx (some result) none s')
            | inl e' ↦
                rw (e, before_loop, e')
                  (before_loop-Observed hooks t (or_context host opts out.0.0 ctx) s')
          ]
        ]

    pub reject-Observed :
        (ctx : Context) (server tool : Text) (info : ToolInfo) (args : Text) (start : ℕ)
        (reason : RejectReason) (e : Failure E) (s : Run W E)
        → Observed (reject host opts ctx server tool info args start reason e s)
    unfolding reject safe_record_call last_after since
    reject-Observed ctx server tool info args start reason e s =
        (none, last-run_after_call ctx server tool info args none (some e) _ _)
