-- ===== src/Caller/Stages/Ends.antt =====
-- A call cut into steps ends, whatever the other goroutines do in between.
use mcp_multiplexer.Base.{
  ℕ, ◌+◌, ◌≤◌, ◌≡◌, refl, arith, Option, none, some, List, [], ◌∷◌, length, ◌-◌,
}
use mcp_multiplexer.Context.{Context}
use mcp_multiplexer.Host.{Host}
use mcp_multiplexer.Options.{Options}
use mcp_multiplexer.Caller.Run.{Run}
use mcp_multiplexer.Caller.Dispatch.{Target, Outcome}
use mcp_multiplexer.Caller.Stages.{
  Stage, hooking, aborting, answering, looking, getting, hitting, asking, transforming, failing,
  storing, setting, finishing, ended, advance, drive,
}

module _ {W E : Type 0} (host : Host W E) (opts : Options W E) where
  -- How many steps of its own a call has left, at most.
  unfoldable pub rank : Stage host opts → ℕ
  rank (hooking hooks t ctx) = length hooks + (length opts.result_transform + 8)
  rank (aborting t ctx x) = 1
  rank (answering t ctx result) = 1
  rank (looking t ctx) = length opts.result_transform + 7
  rank (getting active t ctx) = length opts.result_transform + 6
  rank (hitting t ctx cached) = 1
  rank (asking active t ctx) = length opts.result_transform + 5
  rank (transforming hooks active t ctx result dur) = length hooks + 4
  rank (failing t ctx result e dur) = 1
  rank (storing active t ctx result dur) = 3
  rank (setting active t ctx result ttl dur) = 2
  rank (finishing t ctx result dur) = 1
  rank (ended route t ctx answer) = 0

  pub rank-advance :
      (x : Stage host opts) (s : Run W E) → rank (advance host opts x s).0 ≤ rank x - 1
  unfolding rank advance
  rank-advance (hooking [] t ctx) s = omega arith
  rank-advance (hooking (hook ∷ hooks) t ctx) s = ground arith
  rank-advance (aborting t ctx x) s = omega arith
  rank-advance (answering t ctx result) s = omega arith
  rank-advance (looking t ctx) s = ground arith
  rank-advance (getting active t ctx) s = ground arith
  rank-advance (hitting t ctx cached) s = omega arith
  rank-advance (asking active t ctx) s = ground arith
  rank-advance (transforming [] active t ctx result dur) s = omega arith
  rank-advance (transforming (hook ∷ hooks) active t ctx result dur) s = ground arith
  rank-advance (failing t ctx result e dur) s = omega arith
  rank-advance (storing active t ctx result dur) s = ground arith
  rank-advance (setting active t ctx result ttl dur) s = omega arith
  rank-advance (finishing t ctx result dur) s = omega arith
  rank-advance (ended route t ctx answer) s = omega arith

  -- What a call returns, and the shared state then, once it has ended.
  unfoldable pub finished : Stage host opts × Run W E → Option (Outcome host opts)
  finished (ended route t ctx answer, s) = some (answer, s)
  finished (hooking hooks t ctx, s) = none
  finished (aborting t ctx x, s) = none
  finished (answering t ctx result, s) = none
  finished (looking t ctx, s) = none
  finished (getting active t ctx, s) = none
  finished (hitting t ctx cached, s) = none
  finished (asking active t ctx, s) = none
  finished (transforming hooks active t ctx result dur, s) = none
  finished (failing t ctx result e dur, s) = none
  finished (storing active t ctx result dur, s) = none
  finished (setting active t ctx result ttl dur, s) = none
  finished (finishing t ctx result dur, s) = none

  finished_zero :
      (x : Stage host opts) (s : Run W E)
      → rank x ≤ 0
      → (out : Outcome host opts) × (finished (x, s) ≡ some out)
  unfolding rank finished
  finished_zero (ended route t ctx answer) s h = ((answer, s), refl)
  finished_zero (hooking hooks t ctx) s h = absurd (omega arith)
  finished_zero (aborting t ctx x) s h = absurd (omega arith)
  finished_zero (answering t ctx result) s h = absurd (omega arith)
  finished_zero (looking t ctx) s h = absurd (omega arith)
  finished_zero (getting active t ctx) s h = absurd (omega arith)
  finished_zero (hitting t ctx cached) s h = absurd (omega arith)
  finished_zero (asking active t ctx) s h = absurd (omega arith)
  finished_zero (transforming hooks active t ctx result dur) s h = absurd (omega arith)
  finished_zero (failing t ctx result e dur) s h = absurd (omega arith)
  finished_zero (storing active t ctx result dur) s h = absurd (omega arith)
  finished_zero (setting active t ctx result ttl dur) s h = absurd (omega arith)
  finished_zero (finishing t ctx result dur) s h = absurd (omega arith)

  drive-finished :
      (others : List (Run W E → Run W E)) (x : Stage host opts) (s : Run W E)
      → rank x ≤ length others
      → (out : Outcome host opts) × (finished (drive host opts others x s) ≡ some out)
  unfolding drive
  drive-finished [] x s h = finished_zero x s h
  drive-finished (others ∷ rest) x s h =
      let next = advance host opts x (others s) in
      drive-finished rest next.0 next.1 (omega (arith, rank-advance x (others s)))

  -- A call ends, whatever the hooks, the server and the other goroutines do: steps of its own are
  -- enough, one for each BeforeCall and ResultTransform hook and eight more.
  pub call_ends :
      (others : List (Run W E → Run W E)) (t : Target) (ctx : Context) (s : Run W E)
      → length opts.before_call + (length opts.result_transform + 8) ≤ length others
      → (out : Outcome host opts) × (finished
            (drive host opts others (hooking opts.before_call t ctx) s)
          ≡ some out)
  call_ends others t ctx s h =
      drive-finished others (hooking opts.before_call t ctx) s (unfold rank in h)
