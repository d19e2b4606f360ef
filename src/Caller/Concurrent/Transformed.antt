-- ===== src/Caller/Concurrent/Transformed.antt =====
-- What the last ResultTransform hook promises holds of all results that are served.
use mcp_multiplexer.Base.{
  ℕ, Text, ◌<◌, ◌≡◌, subst, ◌⊎◌, inl, inr, none, some, List, [], ◌∷◌, nat_beq, if_cases,
  Option-cases, Bool-cases, ◌&&◌, not,
}
use mcp_multiplexer.Context.{Context}
use mcp_multiplexer.Tool.{ToolInfo, CallResult}
use mcp_multiplexer.Host.{Host, ok, Answer-cases}
use mcp_multiplexer.Options.{Options, ResultTransformHook}
use mcp_multiplexer.Cache.Lru.{new_lru_cache}
use mcp_multiplexer.Cache.Keys.{is_cacheable}
use mcp_multiplexer.Caller.Run.{Run, Active, active_cache, cache_get, effective_timeout}
use mcp_multiplexer.Caller.Dispatch.{Target, is_active, fail_after}
use mcp_multiplexer.Caller.Accounting.{Route, cache_hit, dispatched}
use mcp_multiplexer.Caller.Cached.{key_of}
use mcp_multiplexer.Caller.Stages.{
  Stage, hooking, aborting, answering, looking, getting, hitting, asking, transforming, failing,
  storing, setting, finishing, ended, advance,
}
use mcp_multiplexer.Caller.Concurrent.{
  Made, System, note, Step, call, outside, arriving, Reach, here, later,
}
use mcp_multiplexer.Caller.Concurrent.Origin.{In, Fits}
use mcp_multiplexer.Caller.Concurrent.Served.{Reach-Fits}

module _ {W E : Type 0} (P : CallResult → Type 0) where
  -- Where the last hook succeeds, its result has the property.
  abbrev pub Ensures : List (ResultTransformHook W E) → Type 0
  Ensures [] = ⊥
  Ensures (hook ∷ []) =
      (ctx : Context) (server tool : Text) (info : ToolInfo) (r : CallResult) (w : W)
      → (hook ctx server tool info r w).0.1 ≡ none
      → P (hook ctx server tool info r w).0.0
  Ensures (hook ∷ next ∷ hooks) = Ensures (next ∷ hooks)

module _ {W E : Type 0} (host : Host W E) (opts : Options W E) (P : CallResult → Type 0)
    (last : Ensures P opts.result_transform) where
  -- The hooks that are left ensure the property, or the result has it.
  abbrev Promised : Stage host opts → Type 0
  Promised (transforming [] active t ctx r dur) = P r
  Promised (transforming (hook ∷ hooks) active t ctx r dur) = Ensures P (hook ∷ hooks)
  Promised (hooking hooks t ctx) = Unit
  Promised (aborting t ctx x) = Unit
  Promised (answering t ctx r) = Unit
  Promised (looking t ctx) = Unit
  Promised (getting active t ctx) = Unit
  Promised (hitting t ctx r) = Unit
  Promised (asking active t ctx) = Unit
  Promised (failing t ctx r e dur) = Unit
  Promised (storing active t ctx r dur) = Unit
  Promised (setting active t ctx r ttl dur) = Unit
  Promised (finishing t ctx r dur) = Unit
  Promised (ended route t ctx answer) = Unit

  abbrev AllMade : List Made → Type 0
  AllMade made = (m : Made) → In m made → P m.result

  starts :
      (hooks : List (ResultTransformHook W E)) (active : Active host opts) (t : Target)
      (ctx : Context) (r : CallResult) (dur : ℕ)
      → Ensures P hooks
      → Promised (transforming hooks active t ctx r dur)
  starts [] active t ctx r dur h = absurd h
  starts (hook ∷ hooks) active t ctx r dur h = h

  abbrev Goes : List Made → Stage host opts → Type 0
  Goes made x = AllMade (note host opts x made) × Promised x

  advance-Goes :
      (made : List Made) (x : Stage host opts) (s : Run W E)
      → AllMade made
      → Promised x
      → Goes made (advance host opts x s).0
  unfolding advance note fail_after
  advance-Goes made (hooking [] t ctx) s a h = (a, tt)
  advance-Goes made (hooking (hook ∷ hooks) t ctx) s a h =
      let out = hook ctx t.server t.tool t.info t.args s.world in
      elim (Option-cases out.0.2) [
        | inr (x, q) ↦ rw (q, advance) (a, tt)
        | inl q ↦ elim (Option-cases out.0.1) [
          | inr (r, e) ↦ rw (q, advance, e) (a, tt)
          | inl e ↦ rw (q, advance, e) (a, tt)
        ]
      ]
  advance-Goes made (aborting t ctx x) s a h = (a, tt)
  advance-Goes made (answering t ctx r) s a h = (a, tt)
  advance-Goes made (looking t ctx) s a h =
      let active = active_cache host opts s in
      elim (Bool-cases (is_active host opts active && is_cacheable t.info)) [
        | inl e ↦ rw e (a, tt)
        | inr e ↦ rw e (a, tt)
      ]
  advance-Goes made (getting active t ctx) s a h =
      elim (Option-cases (cache_get host opts active ctx (key_of host opts t ctx) s).0) [
        | inl q ↦ rw (q, advance) (a, tt)
        | inr (r, q) ↦ rw (q, advance) (a, tt)
      ]
  advance-Goes made (hitting t ctx r) s a h = (a, tt)
  advance-Goes made (asking active t ctx) s a h =
      let timeout = effective_timeout t.server_timeout opts.call_timeout in
      let answer = (host.call_tool ctx timeout t.session t.tool t.arguments s.world).0 in
      elim (Answer-cases answer) [
        | inl (e, q) ↦ rw (q, advance) (a, tt)
        | inr (raw, q) ↦ rw (q, advance) (a, starts opts.result_transform active t ctx _ _ last)
      ]
  advance-Goes made (transforming [] active t ctx r dur) s a h = (
    λ m there. elim there [ inl e ↦ subst (λ (m : Made). P m.result) e h | inr old ↦ a m old ],
    tt,
  )
  advance-Goes made (transforming (hook ∷ []) active t ctx r dur) s a h =
      let out = hook ctx t.server t.tool t.info r s.world in
      elim (Option-cases out.0.1) [
        | inl e ↦ rw (e, advance) (a, h ctx t.server t.tool t.info r s.world e)
        | inr (x, e) ↦ rw (e, advance) (a, tt)
      ]
  advance-Goes made (transforming (hook ∷ next ∷ hooks) active t ctx r dur) s a h =
      let out = hook ctx t.server t.tool t.info r s.world in
      elim (Option-cases out.0.1) [
        | inl e ↦ rw (e, advance) (a, h)
        | inr (x, e) ↦ rw (e, advance) (a, tt)
      ]
  advance-Goes made (failing t ctx r e dur) s a h = (a, tt)
  advance-Goes made (storing active t ctx r dur) s a h =
      let branch = is_active host opts active && (is_cacheable t.info && not r.is_error) in
      elim (Bool-cases branch) [ inl e ↦ rw e (a, tt) | inr e ↦ rw e (a, tt) ]
  advance-Goes made (setting active t ctx r ttl dur) s a h = (a, tt)
  advance-Goes made (finishing t ctx r dur) s a h = (a, tt)
  advance-Goes made (ended route t ctx answer) s a h = (a, tt)

  record IsSound (y : System host opts) : Type 0 where
    all : AllMade y.made
    promised : (i : ℕ) → Promised (y.calls i)

  Step-IsSound : {y z : System host opts} → IsSound y → Step host opts y z → IsSound z
  Step-IsSound {y} v (call i) =
      let next = (advance host opts (y.calls i) y.shared).0 in
      let goes = advance-Goes y.made (y.calls i) y.shared v.all (v.promised i) in
      record {
        all = goes.0;
        promised = λ j. if_cases Promised (nat_beq i j) next (y.calls j) goes.1 (v.promised j);
      }
  Step-IsSound v (outside w) = record { all = v.all; promised = v.promised }

  Reach-IsSound : {y z : System host opts} → IsSound y → Reach host opts y z → IsSound z
  Reach-IsSound v here = v
  Reach-IsSound v (later r st) = Step-IsSound (Reach-IsSound v r) st

  -- Whatever the interleaving of calls on a new built-in cache: a result that a call is given by its
  -- server, or from the cache, has each property that the last ResultTransform hook gives to the
  -- results with which it succeeds.
  pub Reach-Transformed :
      (size : ℕ) (targets : ℕ → Target) (contexts : ℕ → Context) (s : Run W E) (i : ℕ)
      (route : Route) (t : Target) (ctx : Context) (r : CallResult) {z : System host opts}
      → 0 < size
      → opts.cache ≡ none
      → s.builtin_cache ≡ some (new_lru_cache size)
      → Reach host opts (arriving host opts targets contexts s) z
      → z.calls i ≡ ended route t ctx (ok r)
      → (route ≡ cache_hit) ⊎ (route ≡ dispatched)
      → P r
  Reach-Transformed size targets contexts s i route t ctx r {z} p own new reach answered served =
      let start : IsSound (arriving host opts targets contexts s) = record {
        all = λ m none. absurd none;
        promised = λ j. tt;
      } in
      let sound = Reach-IsSound start reach in
      let fits =
        subst (Fits host opts z.made) answered
          (Reach-Fits host opts size targets contexts s i p own new reach) in
      elim served [
        | inl hit ↦
            let (m, there, key, result, cacheable, good) =
              subst (λ o. Fits host opts z.made (ended o t ctx (ok r))) hit fits in
            subst P result (sound.all m there)
        | inr asked ↦
            sound.all (record { target = t; context = ctx; result = r })
              (subst (λ o. Fits host opts z.made (ended o t ctx (ok r))) asked fits)
      ]
