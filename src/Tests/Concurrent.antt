-- ===== src/Tests/Concurrent.antt =====
-- Two equal calls that run at once, the first of which fills the cache for the second; the result is
-- redacted on the way.
use mcp_multiplexer.Base.{
  update, ℕ, ◌≡◌, refl, subst, Text, text_eq, text_beq, bytes, some, List, [], ◌∷◌, true, false,
  lookup, insert, remove, arith, inl, inr,
}
use mcp_multiplexer.Context.{Context, with_cache_scope, cache_scope, is_cache_hit, mark_cache_hit}
use mcp_multiplexer.Tool.{CallResult, clone}
use mcp_multiplexer.Host.{ok, text_content}
use mcp_multiplexer.Options.{Options, default_options}
use mcp_multiplexer.Cache.Lru
use mcp_multiplexer.Cache.Lru.{Lru, new_lru_cache, set, evict, back, move_to_front}
use mcp_multiplexer.Cache.Keys.{is_cacheable, default_cache_key, canonical_json}
use mcp_multiplexer.Caller.Run.{
  active_cache, cache_get, cache_set, key_fn, log, run_after_call, after_loop, safe_record_call,
  since, tool_ttl, effective_timeout,
}
use mcp_multiplexer.Caller.Results.{build_result}
use mcp_multiplexer.Caller.Dispatch.{after_now, is_active, warn_scope}
use mcp_multiplexer.Caller.Accounting.{cache_hit}
use mcp_multiplexer.Caller.Stages.{ended, advance}
use mcp_multiplexer.Caller.Stages.Whole
use mcp_multiplexer.Caller.Stages.Whole.{Runs}
use mcp_multiplexer.Caller.Rejections.{refusal}
use mcp_multiplexer.Caller.Call.{call_tool}
use mcp_multiplexer.Caller.Concurrent.{Made, System, note, call, arriving, Reach, here, later}
use mcp_multiplexer.Caller.Concurrent.Origin.{In}
use mcp_multiplexer.Caller.Concurrent.Isolation
use mcp_multiplexer.Caller.Concurrent.Isolation.{BarFree, SameCall}
use mcp_multiplexer.Caller.Concurrent.Transformed
use mcp_multiplexer.Examples.{redact, redacted, IsRedacted, redact-Ensures}
use mcp_multiplexer.Tests.Outside.{outside}
use mcp_multiplexer.Tests.Calls.{mx, fresh}
use mcp_multiplexer.Tests.Repeated.{target}

abbrev tenant : Context
tenant = with_cache_scope [] (bytes "t")

-- A replacement for the runs: every text becomes this one.
abbrev blank : Text → Text
blank text = bytes "[REDACTED]"

abbrev opts : Options ℕ Text
opts = record mx.opts { result_transform = redact blank ∷ [] }

abbrev start : System outside opts
start = arriving outside opts (λ i. target) (λ i. tenant) fresh

-- The calls with these numbers make a step each, the last of the list first.
run_calls : List ℕ → System outside opts
run_calls [] = start
run_calls (i ∷ before) =
    let y = run_calls before in
    let (x, s) = advance outside opts (y.calls i) y.shared in
    record { shared = s; calls = update y.calls i x; made = note outside opts x y.made }

run_calls-Reach : (order : List ℕ) → Reach outside opts start (run_calls order)
unfolding run_calls
run_calls-Reach [] = here
run_calls-Reach (i ∷ before) = later (run_calls-Reach before) (call i)

-- Call 1 has arrived, and looks at the cache when call 0 has stored its result.
abbrev order : List ℕ
order = 1 ∷ 1 ∷ 1 ∷ 0 ∷ 0 ∷ 0 ∷ 0 ∷ 0 ∷ 1 ∷ 0 ∷ 0 ∷ 0 ∷ 0 ∷ []

abbrev answer : CallResult
answer =
    redacted blank (
      build_result (some (record { content = text_content (bytes "done") ∷ []; is_error = false })))

steps : Unit {0}
unfolding text_beq lookup insert remove cache_scope with_cache_scope is_cache_hit mark_cache_hit
    clone default_options Lru.get new_lru_cache set evict back move_to_front is_cacheable
    default_cache_key canonical_json active_cache cache_get cache_set key_fn log run_after_call
    after_loop safe_record_call since tool_ttl effective_timeout build_result after_now is_active
    warn_scope advance note redact redacted run_calls
steps = tt

order_run : (run_calls order).calls 1 ≡ ended cache_hit target tenant (ok answer)
unfolding steps
order_run = refl

call_tool-Runs_example :
    Runs outside mx []
      (bytes "k8s")
      (bytes "get")
      []
      fresh
      8
      (refusal outside mx (bytes "k8s") (bytes "get") [])
      (call_tool outside mx [] (bytes "k8s") (bytes "get") [] fresh)
unfolding default_options
call_tool-Runs_example =
    Whole.call_tool-Runs outside mx [] (bytes "k8s") (bytes "get") 8 (omega arith) [] fresh

bar_free : (m : Made) → In m (run_calls order).made → BarFree m.target m.context
unfolding steps
bar_free m there = elim there [
  | inl e ↦ subst (λ (m : Made). BarFree m.target m.context) e (refl, refl, refl)
  | inr old ↦ absurd old
]

Reach-Isolated_example :
    (m : Made) × In m (run_calls order).made
    × (m.result ≡ answer)
    × SameCall outside opts m.target m.context target tenant
    × (is_cacheable m.target.info ≡ true)
    × (answer.is_error ≡ false)
unfolding default_options cache_scope with_cache_scope
Reach-Isolated_example =
    Isolation.Reach-Isolated outside opts 2 (λ i. target) (λ i. tenant) fresh 1 target tenant answer
      (omega arith) refl refl refl (run_calls-Reach order) order_run (refl, refl, refl) bar_free

Reach-Transformed_example : IsRedacted blank answer
unfolding default_options
Reach-Transformed_example =
    Transformed.Reach-Transformed outside opts (IsRedacted blank) (redact-Ensures blank) 2
      (λ i. target) (λ i. tenant) fresh 1 cache_hit target tenant answer (omega arith) refl refl
      (run_calls-Reach order) order_run (inl refl)
