-- ===== src/Reconnect.antt =====
-- healthcheck.go, the whole of reconnectServer and a round of runSupervisor as functions, where no
-- other goroutine writes the entries in between; Lifecycle.antt interleaves them.
pub mod Laws
pub mod Refinement
pub mod Goroutines
use mcp_multiplexer.Base.{
  ℕ, zero, suc, Text, text_eq, bytes, Bool, true, false, Option, none, some, List, [], ◌∷◌, ◌++◌,
  if◌then◌else◌, lookup, insert, ℤ,
}
use mcp_multiplexer.Errors.{Failure}
use mcp_multiplexer.Host.{Host, Answer, ok, err, Session, info, error}
use mcp_multiplexer.Options.{Options}
use mcp_multiplexer.Mux.{Mux, ServerEntry, connected, down}
use mcp_multiplexer.Health.{probe_server}
use mcp_multiplexer.New.Connect.{Dialer, connect}

module _ {W E : Type 0} (host : Host W E) (dialer : Dialer W E) (opts : Options W E) where
  -- `onReconnect`; `none` is a nil error.
  told : Text → Option (Failure E) → W → W
  told name e w = elim opts.on_reconnect [ none ↦ w | some f ↦ f name e w ]

  -- "Swap session and tools atomically."
  unfoldable pub swap_in : ServerEntry → ServerEntry → ServerEntry
  swap_in entry new = record entry {
    session = new.session;
    tools = new.tools;
    state = connected;
    reconnecting = false;
  }

  -- The end of an attempt; `rest` is what follows a failed one.
  attempted :
      Text
      → ServerEntry
      → (W → ServerEntry × W)
      → Answer (Failure E) ServerEntry × W
      → ServerEntry × W
  unfolding told swap_in
  attempted name entry rest (ok new, w) =
      (swap_in entry new, told name none (opts.logger info (bytes "mcpx: reconnected") w))
  attempted name entry rest (err e, w) =
      rest (told name (some e) (opts.logger error (bytes "mcpx: reconnect failed") w))

  -- The loop, for the number of times that the timer fires before the context is cancelled.
  unfoldable pub reconnect_loop : Text → ℕ → ServerEntry → W → ServerEntry × W
  unfolding attempted
  reconnect_loop name zero entry w = (record entry { reconnecting = false }, w)
  reconnect_loop name (suc rounds) entry w =
      attempted name entry (reconnect_loop name rounds entry) (
        connect host dialer opts entry.config entry.refresh_ch
          (opts.logger info (bytes "mcpx: reconnect attempt") w))

  closed_old : Option Session → W → W
  closed_old none w = w
  closed_old (some session) w = (host.close session w).1

  -- `reconnectServer`, on the entry that it finds.
  unfoldable pub reconnect_server : Text → ℕ → ServerEntry → W → ServerEntry × W
  unfolding reconnect_loop closed_old
  reconnect_server name rounds entry w =
      reconnect_loop name rounds (record entry { state = down }) (closed_old entry.session w)

-- The servers, and the names for which `reconnectServer` is started.
abbrev pub Claims : Type 0
Claims = List (Text × ServerEntry) × List Text

module _ {W E : Type 0} (host : Host W E) where
  claim : Text → ServerEntry → Claims → Option (Failure E) × W → Claims × W
  claim name entry (servers, started) (none, w) = ((servers, started), w)
  claim name entry (servers, started) (some e, w) =
      ((insert name (record entry { reconnecting = true }) servers, started ++ name ∷ []), w)

  -- What the loop does for a name.
  unfoldable pub check_server : Mux W E → Text → Option ServerEntry → Claims → W → Claims × W
  unfolding claim
  check_server mx name none acc w = (acc, w)
  check_server mx name (some entry) (servers, started) w =
      if entry.reconnecting
      then ((servers, started), w)
      else claim name entry (servers, started)
          (probe_server host (record mx { servers = servers }) name mx.opts.health_check_interval w)

  -- A round of `runSupervisor` in which the context is not cancelled, over the names in the order of
  -- the range.
  unfoldable pub supervise_round : Mux W E → List Text → Claims → W → Claims × W
  unfolding check_server
  supervise_round mx [] acc w = (acc, w)
  supervise_round mx (name ∷ names) (servers, started) w =
      let (acc, w') = check_server mx name (lookup name servers) (servers, started) w in
      supervise_round mx names acc w'
