-- ===== src/Caller/Concurrent.antt =====
-- Calls of CallTool that run at once, on one multiplexer: their steps interleaved in any order, with
-- changes of the outside world in between.
pub mod Origin
pub mod Held
pub mod Served
pub mod Isolation
pub mod Transformed
use mcp_multiplexer.Base.{
  update, ℕ, ◌≡◌, ◌⊎◌, Bool, if◌then◌else◌, nat_beq, none, some, List, [], ◌∷◌,
}
use mcp_multiplexer.Context.{Context}
use mcp_multiplexer.Tool.{CallResult}
use mcp_multiplexer.Host.{Host}
use mcp_multiplexer.Options.{Options}
use mcp_multiplexer.Caller.Run.{Run}
use mcp_multiplexer.Caller.Dispatch.{Target}
use mcp_multiplexer.Caller.Stages.{
  Stage, hooking, aborting, answering, looking, getting, hitting, asking, transforming, failing,
  storing, setting, finishing, ended, advance,
}

-- A result of a server's, after the ResultTransform chain, with the call that it answers.
pub record Made : Type 0 where
  pub target : Target
  pub context : Context
  pub result : CallResult

module _ {W E : Type 0} (host : Host W E) (opts : Options W E) where
  -- `calls i` is where the call with number `i` stands: a call that has made no step has not arrived
  -- yet. `made` is a record of the past, and nothing of the code.
  pub record System : Type 0 where
    pub shared : Run W E
    pub calls : ℕ → Stage host opts
    pub made : List Made

  -- A result is made when the ResultTransform chain ends.
  unfoldable pub note : Stage host opts → List Made → List Made
  note (storing active t ctx result dur) made =
      record { target = t; context = ctx; result = result } ∷ made
  note (hooking hooks t ctx) made = made
  note (aborting t ctx x) made = made
  note (answering t ctx result) made = made
  note (looking t ctx) made = made
  note (getting active t ctx) made = made
  note (hitting t ctx cached) made = made
  note (asking active t ctx) made = made
  note (transforming hooks active t ctx result dur) made = made
  note (failing t ctx result e dur) made = made
  note (setting active t ctx result ttl dur) made = made
  note (finishing t ctx result dur) made = made
  note (ended route t ctx answer) made = made

  pub data Step (y : System) : System → Type 0 where
    call :
        (i : ℕ)
        → Step y (record {
          shared = (advance host opts (y.calls i) y.shared).1;
          calls = update y.calls i (advance host opts (y.calls i) y.shared).0;
          made = note (advance host opts (y.calls i) y.shared).0 y.made;
        })
    outside : (w : W) → Step y (record y { shared = record y.shared { world = w } })

  -- The calls, before they arrive.
  abbrev pub arriving : (ℕ → Target) → (ℕ → Context) → Run W E → System
  arriving targets contexts s = record {
    shared = s;
    calls = λ i. hooking opts.before_call (targets i) (contexts i);
    made = [];
  }

  pub data Reach (y : System) : System → Type 0 where
    here : Reach y y
    later : {z u : System} → Reach y z → Step z u → Reach y u
