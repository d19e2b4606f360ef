-- ===== src/Caller/Tally.antt =====
-- How many AfterCall hooks, requests, metrics and rejections the small steps of caller.go add to
-- the trace.
use mcp_multiplexer.Base.{
  ℕ, suc, ◌+◌, Text, ◌≡◌, refl, Option, none, some, List, [], ◌∷◌, length, arith, text_eq, ℤ,
}
use mcp_multiplexer.Context.{Context, is_cache_hit}
use mcp_multiplexer.Tool.{ToolInfo, CallResult}
use mcp_multiplexer.Errors.{Failure}
use mcp_multiplexer.Host.{Host, Level}
use mcp_multiplexer.Options.{Options, RejectReason, AfterCallHook}
use mcp_multiplexer.Caller.Run.{
  Run, Event, logged, rejected, after, recorded, sent, since, log, after_loop, run_after_call,
  fire_rejected, safe_record_call, Active, no_cache, user, builtin, cache_get, cache_set, tool_ttl,
}

pub record Tally : Type 0 where
  pub afters : ℕ
  pub sends : ℕ
  pub records : ℕ
  pub rejects : ℕ

unfoldable pub tally : {E : Type 0} → List (Event E) → Tally
tally [] = record { afters = 0; sends = 0; records = 0; rejects = 0 }
tally (logged level message ∷ es) = tally es
tally (rejected reason e ∷ es) = let t = tally es in record t { rejects = suc t.rejects }
tally (after hit args result e ∷ es) = let t = tally es in record t { afters = suc t.afters }
tally (recorded e ∷ es) = let t = tally es in record t { records = suc t.records }
tally (sent server tool args ∷ es) = let t = tally es in record t { sends = suc t.sends }

-- Whether a callback for rejections is registered, as a number.
abbrev pub if_some {ℓ} : {A : Type ℓ} → Option A → ℕ
if_some none = 0
if_some (some a) = 1

module _ {W E : Type 0} (host : Host W E) (opts : Options W E) where
  pub tally-after_loop :
      (hooks : List (AfterCallHook W E)) (ctx : Context) (server tool : Text) (info : ToolInfo)
      (args : Text) (result : Option CallResult) (e : Option (Failure E)) (dur : ℕ) (s : Run W E)
      → tally (after_loop host opts hooks ctx server tool info args result e dur s).trace
        ≡ record (tally s.trace) { afters = length hooks + (tally s.trace).afters }
  unfolding after_loop tally
  tally-after_loop [] ctx server tool info args result e dur s = ground arith
  tally-after_loop (h ∷ hooks) ctx server tool info args result e dur s = ground (
    arith,
    tally-after_loop hooks ctx server tool info args result e dur (record s {
      world = h ctx server tool info args result e dur s.world;
      trace = after (is_cache_hit ctx) args result e ∷ s.trace;
    }),
  )

  pub tally-run_after_call :
      (ctx : Context) (server tool : Text) (info : ToolInfo) (args : Text)
      (result : Option CallResult) (e : Option (Failure E)) (dur : ℕ) (s : Run W E)
      → tally (run_after_call host opts ctx server tool info args result e dur s).trace
        ≡ record (tally s.trace) { afters = length opts.after_call + (tally s.trace).afters }
  unfolding run_after_call
  tally-run_after_call = tally-after_loop opts.after_call

  pub tally-fire_rejected :
      (ctx : Context) (server tool : Text) (reason : RejectReason) (e : Failure E) (s : Run W E)
      → tally (fire_rejected host opts ctx server tool reason e s).trace ≡ record (tally s.trace) {
        rejects = if_some opts.on_rejected_call + (tally s.trace).rejects;
      }
  unfolding fire_rejected tally
  tally-fire_rejected ctx server tool reason e s = ground arith

  pub tally-record :
      (server tool : Text) (dur : ℕ) (e : Option (Failure E)) (s : Run W E)
      → tally (safe_record_call host opts server tool dur e s).trace
        ≡ record (tally s.trace) { records = suc (tally s.trace).records }
  unfolding safe_record_call tally
  tally-record server tool dur e s = refl

  pub trace-since : (start : ℕ) (s : Run W E) → (since host opts start s).1.trace ≡ s.trace
  unfolding since
  trace-since start s = refl

  pub tally-log :
      (level : Level) (message : Text) (s : Run W E)
      → tally (log host opts level message s).trace ≡ tally s.trace
  unfolding log tally
  tally-log level message s = refl

  pub trace-cache_get :
      (active : Active host opts) (ctx : Context) (key : Text) (s : Run W E)
      → (cache_get host opts active ctx key s).1.trace ≡ s.trace
  unfolding cache_get
  trace-cache_get no_cache ctx key s = refl
  trace-cache_get (user c) ctx key s = refl
  trace-cache_get builtin ctx key s = ground arith

  pub trace-cache_set :
      (active : Active host opts) (ctx : Context) (key : Text) (result : CallResult) (ttl : ℤ)
      (s : Run W E)
      → (cache_set host opts active ctx key result ttl s).trace ≡ s.trace
  unfolding cache_set
  trace-cache_set no_cache ctx key result ttl s = refl
  trace-cache_set (user c) ctx key result ttl s = refl
  trace-cache_set builtin ctx key result ttl s = ground arith

  pub tally-tool_ttl :
      (info : ToolInfo) (s : Run W E) → tally (tool_ttl host opts info s).1.trace ≡ tally s.trace
  unfolding tool_ttl log tally
  tally-tool_ttl info s = ground arith
