-- ===== src/Caller/Stages/Alone.antt =====
-- A call cut into steps does, alone, what CallTool does.
use mcp_multiplexer.Base.{
  ℕ, zero, suc, ◌+◌, ◌≤◌, ◌<◌, ◌≡◌, refl, arith, Option, none, some, List, [], ◌∷◌, length,
  Bool-cases, Option-cases, inl, inr, ◌&&◌, not,
}
use mcp_multiplexer.Context.{Context}
use mcp_multiplexer.Tool.{CallResult}
use mcp_multiplexer.Errors.{Failure, hook_error}
use mcp_multiplexer.Host.{Host, Answer, ok, Answer-cases}
use mcp_multiplexer.Options.{Options, BeforeCallHook, ResultTransformHook}
use mcp_multiplexer.Cache.Keys.{is_cacheable}
use mcp_multiplexer.Caller.Run.{Run, Active, active_cache, cache_get, key_fn, effective_timeout}
use mcp_multiplexer.Caller.Results.{build_result}
use mcp_multiplexer.Caller.Dispatch.{
  Target, Outcome, fail_after, failure_of, store, is_active, succeed, transform_loop, answered,
  call_upstream, warn_scope, looked_up, cache_lookup, or_context, before_loop,
}
use mcp_multiplexer.Caller.Accounting.{Route}
use mcp_multiplexer.Caller.Stages.{
  Stage, hooking, aborting, answering, looking, getting, hitting, asking, transforming, failing,
  storing, setting, finishing, ended, advance, drive,
}
use mcp_multiplexer.Caller.Stages.Ends.{rank, rank-advance, finished}

module _ {W E : Type 0} (host : Host W E) (opts : Options W E) where
  -- Nothing comes in between.
  unfoldable pub alone : ℕ → List (Run W E → Run W E)
  alone zero = []
  alone (suc n) = (λ s. s) ∷ alone n

  abbrev Gives : Stage host opts → Run W E → Outcome host opts → Type 0
  Gives x s out =
      (n : ℕ) → rank host opts x ≤ n → finished host opts (drive host opts (alone n) x s) ≡ some out

  Gives-ended :
      (route : Route) (t : Target) (ctx : Context) (answer : Answer (Failure E) CallResult)
      (s : Run W E)
      → Gives (ended route t ctx answer) s (answer, s)
  unfolding drive alone advance finished
  Gives-ended route t ctx answer s zero h = refl
  Gives-ended route t ctx answer s (suc n) h =
      Gives-ended route t ctx answer s n (unfold rank in omega arith)

  Gives-step :
      (x : Stage host opts) (s : Run W E) (out : Outcome host opts)
      → 0 < rank host opts x
      → Gives (advance host opts x s).0 (advance host opts x s).1 out
      → Gives x s out
  unfolding drive alone
  Gives-step x s out p next zero h = absurd (omega arith)
  Gives-step x s out p next (suc n) h = next n (omega (arith, rank-advance host opts x s))

  Gives-storing :
      (active : Active host opts) (t : Target) (ctx : Context) (result : CallResult) (dur : ℕ)
      (s : Run W E)
      → Gives (storing active t ctx result dur) s (succeed host opts t ctx active result dur s)
  unfolding advance succeed store rank
  Gives-storing active t ctx result dur s =
      let branch = is_active host opts active && (is_cacheable t.info && not result.is_error) in
      elim (Bool-cases branch) [
        | inl e ↦ Gives-step (storing active t ctx result dur) s _ (omega arith) (
            rw e (
              Gives-step (setting active t ctx result _ dur) _ _ (omega arith) (
                Gives-step (finishing t ctx result dur) _ _ (omega arith)
                  (Gives-ended _ t ctx (ok result) _))))
        | inr e ↦ Gives-step (storing active t ctx result dur) s _ (omega arith) (
            rw e (
              Gives-step (finishing t ctx result dur) s _ (omega arith)
                (Gives-ended _ t ctx (ok result) _)))
      ]

  Gives-failing :
      (t : Target) (ctx : Context) (result : Option CallResult) (e : Failure E) (dur : ℕ)
      (s : Run W E)
      → Gives (failing t ctx result e dur) s (fail_after host opts t ctx result e dur s)
  unfolding advance rank
  Gives-failing t ctx result e dur s =
      Gives-step (failing t ctx result e dur) s _ (omega arith) (Gives-ended _ t ctx _ _)

  Gives-transforming :
      (hooks : List (ResultTransformHook W E)) (active : Active host opts) (t : Target)
      (ctx : Context) (result : CallResult) (dur : ℕ) (s : Run W E)
      → Gives
          (transforming hooks active t ctx result dur)
          s
          (transform_loop host opts hooks t ctx active result dur s)
  unfolding advance transform_loop rank
  Gives-transforming [] active t ctx result dur s =
      Gives-step (transforming [] active t ctx result dur) s _ (omega arith)
        (Gives-storing active t ctx result dur s)
  Gives-transforming (hook ∷ hooks) active t ctx result dur s =
      let out = hook ctx t.server t.tool t.info result s.world in
      let s' = record s { world = out.1 } in
      elim (Option-cases out.0.1) [
        | inl e ↦
            Gives-step (transforming (hook ∷ hooks) active t ctx result dur) s _ (omega arith) (
              rw (e, advance, transform_loop)
                (Gives-transforming hooks active t ctx out.0.0 dur s'))
        | inr (x, e) ↦
            Gives-step (transforming (hook ∷ hooks) active t ctx result dur) s _ (omega arith) (
              rw (e, advance, transform_loop)
                (Gives-failing t ctx (some out.0.0) (hook_error x) dur s'))
      ]

  Gives-asking :
      (active : Active host opts) (t : Target) (ctx : Context) (s : Run W E)
      → Gives (asking active t ctx) s (call_upstream host opts t ctx active s)
  unfolding advance call_upstream answered rank
  Gives-asking active t ctx s =
      let timeout = effective_timeout t.server_timeout opts.call_timeout in
      let answer = (host.call_tool ctx timeout t.session t.tool t.arguments s.world).0 in
      elim (Answer-cases answer) [
        | inl (e, q) ↦ Gives-step (asking active t ctx) s _ (omega arith) (
            rw (q, advance, answered)
              (Gives-failing t ctx none (failure_of host opts t timeout e) _ _))
        | inr (raw, q) ↦ Gives-step (asking active t ctx) s _ (omega arith) (
            rw (q, advance, answered)
              (Gives-transforming opts.result_transform active t ctx (build_result raw) _ _))
      ]

  Gives-getting :
      (active : Active host opts) (t : Target) (ctx : Context) (s : Run W E)
      → Gives (getting active t ctx) s (
          looked_up host opts t ctx active
            (cache_get host opts active ctx (key_fn host opts ctx t.server t.tool t.args) s))
  unfolding advance looked_up rank
  Gives-getting active t ctx s =
      let found = cache_get host opts active ctx (key_fn host opts ctx t.server t.tool t.args) s in
      elim (Option-cases found.0) [
        | inl q ↦
            Gives-step (getting active t ctx) s _ (omega arith)
              (rw (q, advance, looked_up) (Gives-asking active t ctx found.1))
        | inr (r, q) ↦ Gives-step (getting active t ctx) s _ (omega arith) (
            rw (q, advance, looked_up)
              (Gives-step (hitting t ctx r) found.1 _ (omega arith) (Gives-ended _ t ctx _ _)))
      ]

  Gives-looking :
      (t : Target) (ctx : Context) (s : Run W E)
      → Gives (looking t ctx) s (cache_lookup host opts t ctx s)
  unfolding advance cache_lookup rank
  Gives-looking t ctx s =
      let active = active_cache host opts s in
      elim (Bool-cases (is_active host opts active && is_cacheable t.info)) [
        | inl e ↦
            Gives-step (looking t ctx) s _ (omega arith)
              (rw e (Gives-getting active t ctx (warn_scope host opts ctx s)))
        | inr e ↦ Gives-step (looking t ctx) s _ (omega arith) (rw e (Gives-asking active t ctx s))
      ]

  Gives-hooking :
      (hooks : List (BeforeCallHook W E)) (t : Target) (ctx : Context) (s : Run W E)
      → Gives (hooking hooks t ctx) s (before_loop host opts hooks t ctx s)
  unfolding advance before_loop rank
  Gives-hooking [] t ctx s = Gives-step (hooking [] t ctx) s _ (omega arith) (Gives-looking t ctx s)
  Gives-hooking (hook ∷ hooks) t ctx s =
      let out = hook ctx t.server t.tool t.info t.args s.world in
      let s' = record s { world = out.1 } in
      let first = hooking (hook ∷ hooks) t ctx in
      elim (Option-cases out.0.2) [
        | inr (x, q) ↦ Gives-step first s _ (omega arith) (
            rw (q, advance, before_loop)
              (Gives-step (aborting t ctx x) s' _ (omega arith) (Gives-ended _ t ctx _ _)))
        | inl q ↦ elim (Option-cases out.0.1) [
          | inr (r, p) ↦ Gives-step first s _ (omega arith) (
              rw (q, advance, before_loop, p)
                (Gives-step (answering t ctx r) s' _ (omega arith) (Gives-ended _ t ctx _ _)))
          | inl p ↦ Gives-step first s _ (omega arith) (
              rw (q, advance, before_loop, p)
                (Gives-hooking hooks t (or_context host opts out.0.0 ctx) s'))
        ]
      ]

  -- A call between whose steps no other goroutine runs returns what CallTool returns, and leaves the
  -- state that it leaves.
  pub drive-before_loop :
      (n : ℕ) (t : Target) (ctx : Context) (s : Run W E)
      → length opts.before_call + (length opts.result_transform + 8) ≤ n
      → finished host opts (drive host opts (alone n) (hooking opts.before_call t ctx) s)
        ≡ some (before_loop host opts opts.before_call t ctx s)
  drive-before_loop n t ctx s h = Gives-hooking opts.before_call t ctx s n (unfold rank in h)
