-- ===== src/Caller/Concurrent/Served.antt =====
-- Where the results come from that calls which run at once are answered with.
use mcp_multiplexer.Base.{
  ℕ, ◌<◌, ◌≡◌, refl, ◌∙◌, inl, inr, text_eq, ◌&&◌, not, none, some, List, [], ◌∷◌, arith,
  Bool-cases, Option-cases, nat_beq, if_cases,
}
use mcp_multiplexer.Context.{Context, mark_cache_hit}
use mcp_multiplexer.Errors.{hook_error}
use mcp_multiplexer.Host.{Host, Answer-cases}
use mcp_multiplexer.Options.{Options, before_hook_abort}
use mcp_multiplexer.Cache.Lru.{new_lru_cache}
use mcp_multiplexer.Cache.Lru.History.{run}
use mcp_multiplexer.Cache.Keys.{is_cacheable}
use mcp_multiplexer.Caller.Run.{
  Run, active_cache, cache_get, since, log, run_after_call, safe_record_call, effective_timeout,
}
use mcp_multiplexer.Caller.Dispatch.{Target, fail_after, is_active}
use mcp_multiplexer.Caller.Cached.{key_of, cache-after_loop, cache-tool_ttl, cache-warn_scope}
use mcp_multiplexer.Caller.Stages.{
  Stage, hooking, aborting, answering, looking, getting, hitting, asking, transforming, failing,
  storing, setting, finishing, ended, advance,
}
use mcp_multiplexer.Caller.Concurrent.{
  Made, System, note, Step, call, outside, arriving, Reach, here, later,
}
use mcp_multiplexer.Caller.Concurrent.Origin.{Shared, Fits, In-note, Fits-grow, Unused-active_cache}
use mcp_multiplexer.Caller.Concurrent.Held.{
  Held, Held-same, Held-grow, Held-get, hit-Shared, Held-set, cache-after_now, cache-fail_after,
  cache-fire_rejected,
}

module _ {W E : Type 0} (host : Host W E) (opts : Options W E) where
  abbrev Goes : ℕ → List Made → Stage host opts × Run W E → Type 0
  Goes size made (x, s) =
      Held host opts size (note host opts x made) s.builtin_cache
      × Fits host opts (note host opts x made) x

  -- A step of one call.
  advance-Goes :
      (size : ℕ) (made : List Made) (x : Stage host opts) (s : Run W E)
      → 0 < size
      → opts.cache ≡ none
      → Held host opts size made s.builtin_cache
      → Fits host opts made x
      → Goes size made (advance host opts x s)
  unfolding advance note since log fail_after run_after_call safe_record_call
  advance-Goes size made (hooking [] t ctx) s p own h f = (h, tt)
  advance-Goes size made (hooking (hook ∷ hooks) t ctx) s p own h f =
      let out = hook ctx t.server t.tool t.info t.args s.world in
      elim (Option-cases out.0.2) [
        | inr (x, q) ↦ rw (q, advance) (h, tt)
        | inl q ↦ elim (Option-cases out.0.1) [
          | inr (r, e) ↦ rw (q, advance, e) (h, tt)
          | inl e ↦ rw (q, advance, e) (h, tt)
        ]
      ]
  advance-Goes size made (aborting t ctx x) s p own h f = (
    Held-same host opts size made _ _
        (cache-after_now host opts t ctx none (some (hook_error x)) _
          ∙ cache-fire_rejected host opts ctx t.server t.tool before_hook_abort (hook_error x) s)
        h,
    tt,
  )
  advance-Goes size made (answering t ctx r) s p own h f =
      (Held-same host opts size made _ _ (cache-after_now host opts t ctx (some r) none s) h, tt)
  advance-Goes size made (looking t ctx) s p own h f =
      let active = active_cache host opts s in
      elim (Bool-cases (is_active host opts active && is_cacheable t.info)) [
        | inl e ↦ rw e (
          Held-same host opts size made _ _ (cache-warn_scope host opts ctx s) h,
          Unused-active_cache host opts s own,
        )
        | inr e ↦ rw e (h, Unused-active_cache host opts s own)
      ]
  advance-Goes size made (getting active t ctx) s p own h f =
      let k = key_of host opts t ctx in
      elim (Option-cases (cache_get host opts active ctx k s).0) [
        | inl q ↦ rw (q, advance) (Held-get host opts active ctx k size made s f h, f)
        | inr (r, q) ↦
            rw (q, advance)
              (
                Held-get host opts active ctx k size made s f h,
                hit-Shared host opts active ctx k size made r s p f h q,
              )
      ]
  advance-Goes size made (hitting t ctx r) s p own h f = (
    Held-same host opts size made _ _
        (cache-after_now host opts t (mark_cache_hit ctx) (some r) none s) h,
    f,
  )
  advance-Goes size made (asking active t ctx) s p own h f =
      let timeout = effective_timeout t.server_timeout opts.call_timeout in
      let answer = (host.call_tool ctx timeout t.session t.tool t.arguments s.world).0 in
      elim (Answer-cases answer) [
        | inl (e, q) ↦ rw (q, advance) (h, tt)
        | inr (raw, q) ↦ rw (q, advance) (h, f)
      ]
  advance-Goes size made (transforming [] active t ctx r dur) s p own h f =
      let made' = record { target = t; context = ctx; result = r } ∷ made in
      (Held-grow host opts size made made' _ (λ m there. inr there) h, (f, inl refl))
  advance-Goes size made (transforming (hook ∷ hooks) active t ctx r dur) s p own h f =
      let out = hook ctx t.server t.tool t.info r s.world in
      elim (Option-cases out.0.1) [
        | inl e ↦ rw (e, advance) (h, f)
        | inr (x, e) ↦ rw (e, advance) (h, tt)
      ]
  advance-Goes size made (failing t ctx r e dur) s p own h f =
      (Held-same host opts size made _ _ (cache-fail_after host opts t ctx r e dur s) h, tt)
  advance-Goes size made (storing active t ctx r dur) s p own h f =
      let branch = is_active host opts active && (is_cacheable t.info && not r.is_error) in
      elim (Bool-cases branch) [
        | inl e ↦ rw e (
          Held-same host opts size made _ _ (cache-tool_ttl host opts t.info s) h,
          (f.0, f.1, ground arith, ground arith),
        )
        | inr e ↦ rw e (h, f.1)
      ]
  advance-Goes size made (setting active t ctx r ttl dur) s p own h f =
      let shared : Shared host opts made (key_of host opts t ctx) r =
        (record { target = t; context = ctx; result = r }, f.1, refl, refl, f.2, f.3) in
      (Held-set host opts active ctx (key_of host opts t ctx) r ttl size made s f.0 shared h, f.1)
  advance-Goes size made (finishing t ctx r dur) s p own h f = (
    Held-same host opts size made _ _
        (cache-after_loop host opts opts.after_call ctx t.server t.tool t.info t.args (some r) none
          dur s)
        h,
    f,
  )
  advance-Goes size made (ended route t ctx answer) s p own h f = (h, f)

  -- Of the whole system: the cache holds what calls have made, and every call is as it must be.
  pub record IsSound (size : ℕ) (y : System host opts) : Type 0 where
    pub held : Held host opts size y.made y.shared.builtin_cache
    pub fits : (i : ℕ) → Fits host opts y.made (y.calls i)

  Step-IsSound :
      (size : ℕ) {y z : System host opts}
      → 0 < size
      → opts.cache ≡ none
      → IsSound size y
      → Step host opts y z
      → IsSound size z
  Step-IsSound size {y} p own v (call i) =
      let next = advance host opts (y.calls i) y.shared in
      let goes = advance-Goes size y.made (y.calls i) y.shared p own v.held (v.fits i) in
      let made = note host opts next.0 y.made in
      record {
        held = goes.0;
        fits = λ j. if_cases (Fits host opts made) (nat_beq i j) next.0 (y.calls j) goes.1 (
            Fits-grow host opts y.made made (y.calls j) (λ m. In-note host opts next.0 m y.made)
              (v.fits j));
      }
  Step-IsSound size p own v (outside w) = record { held = v.held; fits = v.fits }

  Reach-IsSound :
      (size : ℕ) {y z : System host opts}
      → 0 < size
      → opts.cache ≡ none
      → IsSound size y
      → Reach host opts y z
      → IsSound size z
  Reach-IsSound size p own v here = v
  Reach-IsSound size p own v (later r st) =
      Step-IsSound size p own (Reach-IsSound size p own v r) st

  -- Whatever the interleaving, what a call gets from the cache is a result that a call with the same
  -- key made, no error, of a tool that may be cached; what it gets from its server, it made itself.
  pub Reach-Fits :
      (size : ℕ) (targets : ℕ → Target) (contexts : ℕ → Context) (s : Run W E) (i : ℕ)
      {z : System host opts}
      → 0 < size
      → opts.cache ≡ none
      → s.builtin_cache ≡ some (new_lru_cache size)
      → Reach host opts (arriving host opts targets contexts s) z
      → Fits host opts z.made (z.calls i)
  Reach-Fits size targets contexts s i p own new reach =
      let start : IsSound size (arriving host opts targets contexts s) = record {
        held = ([], unfold run in new, tt);
        fits = λ j. tt;
      } in
      (Reach-IsSound size p own start reach).fits i
