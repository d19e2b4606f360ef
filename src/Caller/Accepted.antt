-- ===== src/Caller/Accepted.antt =====
-- What a call returns once its arguments are accepted.
use mcp_multiplexer.Base.{
  ℕ, Option, none, some, List, [], ◌∷◌, text_eq, if_cases, Bool-cases, Option-cases, inl, inr, ℤ,
}
use mcp_multiplexer.Context.{Context}
use mcp_multiplexer.Tool.{CallResult}
use mcp_multiplexer.Errors.{Failure, hook_error, call_timeout, upstream_error}
use mcp_multiplexer.Host.{Host, Answer, ok, err, RawResult, CallError}
use mcp_multiplexer.Options.{Options, BeforeCallHook, ResultTransformHook}
use mcp_multiplexer.Caller.Run.{Run, Active, active_cache}
use mcp_multiplexer.Caller.Results.{build_result}
use mcp_multiplexer.Caller.Dispatch.{
  Outcome, Target, fail_after, succeed, transform_loop, failure_of, answered, call_upstream,
  looked_up, cache_lookup, or_context, before_loop,
}

-- A call that was not refused: a result, an error of a hook, or one of the call of the server.
abbrev pub Accepted : {E : Type 0} → Answer (Failure E) CallResult → Type 0
Accepted (ok result) = Unit
Accepted (err (hook_error e)) = Unit
Accepted (err (call_timeout server tool timeout)) = Unit
Accepted (err (upstream_error server e)) = Unit
Accepted (err e) = ⊥

module _ {W E : Type 0} (host : Host W E) (opts : Options W E) where
  failure_of-Accepted :
      (t : Target) (timeout : ℤ) (e : CallError E)
      → Accepted (err (failure_of host opts t timeout e))
  unfolding failure_of
  failure_of-Accepted t timeout e = elim (Bool-cases e.deadline) [
    | inl d ↦ rw d tt
    | inr d ↦ rw d tt
  ]

  transform_loop-Accepted :
      (hooks : List (ResultTransformHook W E)) (t : Target) (ctx : Context)
      (active : Active host opts) (result : CallResult) (dur : ℕ) (s : Run W E)
      → Accepted (transform_loop host opts hooks t ctx active result dur s).0
  unfolding transform_loop succeed fail_after
  transform_loop-Accepted [] t ctx active result dur s = tt
  transform_loop-Accepted (hook ∷ hooks) t ctx active result dur s =
      let next = hook ctx t.server t.tool t.info result s.world in
      elim (Option-cases next.0.1) [
        | inl q ↦
            rw (q, transform_loop)
              (transform_loop-Accepted hooks t ctx active next.0.0 dur
                (record s { world = next.1 }))
        | inr (x, q) ↦ rw (q, transform_loop) tt
      ]

  answered-Accepted :
      (t : Target) (ctx : Context) (active : Active host opts) (timeout : ℤ)
      (answer : Answer (CallError E) (Option RawResult)) (dur : ℕ) (s : Run W E)
      → Accepted (answered host opts t ctx active timeout answer dur s).0
  unfolding answered fail_after
  answered-Accepted t ctx active timeout (err e) dur s = failure_of-Accepted t timeout e
  answered-Accepted t ctx active timeout (ok raw) dur s =
      transform_loop-Accepted opts.result_transform t ctx active (build_result raw) dur s

  pub call_upstream-Accepted :
      (t : Target) (ctx : Context) (active : Active host opts) (s : Run W E)
      → Accepted (call_upstream host opts t ctx active s).0
  unfolding call_upstream
  call_upstream-Accepted t ctx active s = answered-Accepted t ctx active _ _ _ _

  looked_up-Accepted :
      (t : Target) (ctx : Context) (active : Active host opts) (found : Option CallResult × Run W E)
      → Accepted (looked_up host opts t ctx active found).0
  unfolding looked_up
  looked_up-Accepted t ctx active (none, s) = call_upstream-Accepted t ctx active s
  looked_up-Accepted t ctx active (some cached, s) = tt

  cache_lookup-Accepted :
      (t : Target) (ctx : Context) (s : Run W E) → Accepted (cache_lookup host opts t ctx s).0
  unfolding cache_lookup
  cache_lookup-Accepted t ctx s =
      if_cases (λ (out : Outcome host opts). Accepted out.0) _ _ _
        (looked_up-Accepted t ctx (active_cache host opts s) _)
        (call_upstream-Accepted t ctx (active_cache host opts s) s)

  pub before_loop-Accepted :
      (hooks : List (BeforeCallHook W E)) (t : Target) (ctx : Context) (s : Run W E)
      → Accepted (before_loop host opts hooks t ctx s).0
  unfolding before_loop
  before_loop-Accepted [] t ctx s = cache_lookup-Accepted t ctx s
  before_loop-Accepted (hook ∷ hooks) t ctx s =
      let out = hook ctx t.server t.tool t.info t.args s.world in
      elim (Option-cases out.0.2) [
        | inr (x, q) ↦ rw (q, before_loop) tt
        | inl q ↦ elim (Option-cases out.0.1) [
          | inr (result, r) ↦ rw (q, before_loop, r) tt
          | inl r ↦
              rw (q, before_loop, r)
                (before_loop-Accepted hooks t (or_context host opts out.0.0 ctx)
                  (record s { world = out.1 }))
        ]
      ]
