-- ===== src/Lifecycle/Races.antt =====
-- Orders of the steps of a reconnection with those of a refresh, and with those of Close.
use mcp_multiplexer.Base.{ℕ, ◌<◌, ◌≡◌, refl, true, false, some, [], ◌∷◌, arith, nat_eq}
use mcp_multiplexer.Mux.{connected, down}
use mcp_multiplexer.Lifecycle.{
  Listing, without, dialing, mark, close_old, wake, dial, swap, clear, Refresher, take_signal,
  leave_it, go_on, ask, answer, write, Supervisor, probe, dead, stay, claim, Closer, cancel, read,
  close, System, Step, work, refresh, Supervise, Refresh, supervise, shut, change, notify, Run,
  here, more,
}

infixl 5 ◌▸◌
abbrev ◌▸◌ : {s t u : System} → Run s t → Step t u → Run s u
r ▸ x = more r x

-- No reconnection runs, and the entry's session `c` is the one that is open.
abbrev pub settled : ℕ → ℕ → ℕ → Listing → System
settled c next version l = record {
  mem = record {
    state = connected;
    session = some c;
    tools = some l;
    reconnecting = false;
    pending = false;
    cancelled = false;
    sessions = c ∷ [];
    next = next;
    version = version;
  };
  workers = [];
  refresher = Refresher.idle;
  supervisor = Supervisor.idle;
  closer = Closer.fresh;
}

-- The session is lost, and the server is dialled again.
abbrev redialing : ℕ → ℕ → ℕ → Listing → Refresher → System
redialing c next version l r = record {
  mem = record {
    state = down;
    session = some c;
    tools = some l;
    reconnecting = true;
    pending = false;
    cancelled = false;
    sessions = without c (c ∷ []);
    next = next;
    version = version;
  };
  workers = dialing 0 ∷ [];
  refresher = r;
  supervisor = Supervisor.idle;
  closer = Closer.fresh;
}

redial :
    (c next version : ℕ) (l : Listing) (r : Refresher) {s : System}
    → Run s (record (settled c next version l) { refresher = r })
    → Run s (redialing c next version l r)
redial c next version l r before =
    before
    ▸ supervise (probe refl)
    ▸ supervise dead
    ▸ supervise (stay refl)
    ▸ supervise (claim refl)
    ▸ work [] [] refl mark
    ▸ work [] [] refl close_old
    ▸ work [] [] refl wake

-- Nothing is going on, no signal waits, and the tools are not those of the server's list.
abbrev pub StaleForGood : System → Type 0
StaleForGood s =
    (s.mem.state ≡ connected)
    × (s.workers ≡ [])
    × (s.refresher ≡ Refresher.idle)
    × (s.mem.pending ≡ false)
    × ((l : Listing) × (s.mem.tools ≡ some l) × (l.version < s.mem.version))

module _ (c next version : ℕ) (l : Listing) where
  -- Lost signal: the server's list changes after the new session has listed it, and the refresh
  -- goroutine drops the signal because the reconnection is not over. The tools of the entry stay
  -- those from before the change, with no signal left.
  pub signal_lost : (t : System) × Run (settled c next version l) t × StaleForGood t
  signal_lost = (
    _,
    redial c next version l Refresher.idle here
        ▸ work [] [] refl dial
        ▸ change
        ▸ notify
        ▸ refresh (take_signal refl)
        ▸ refresh (leave_it refl)
        ▸ work [] [] refl swap
        ▸ work [] [] refl clear,
    (refl, refl, refl, refl, (_, refl, omega arith)),
  )

  -- Late write: a refresh lists the tools on the old session, and writes them after a reconnection
  -- has put the tools of the new session there. With no signal left, the entry then has the new
  -- session and the tools of the old one, which are those from before the server's list changed.
  pub late_write :
      (t : System) × Run (settled c next version l) t
      × StaleForGood t
      × (t.mem.session ≡ some next)
      × (t.mem.tools ≡ some (record { session = c; version = version }))
  late_write = (
    _,
    redial c next version l _ (
          here
          ▸ notify
          ▸ refresh (take_signal refl)
          ▸ refresh (go_on refl)
          ▸ refresh (ask refl)
          ▸ refresh (answer (ground arith)))
        ▸ change
        ▸ work [] [] refl dial
        ▸ work [] [] refl swap
        ▸ work [] [] refl clear
        ▸ refresh write,
    (refl, refl, refl, refl, (_, refl, omega arith)),
    refl,
    refl,
  )

  -- Leaked session: `Close` reads the old session before a reconnection that has connected puts its
  -- own there. All goroutines end, `Close` returns, and the new session is still open.
  pub session_leaked :
      c < next
      → (t : System) × Run (settled c next version l) t
        × (t.closer ≡ Closer.closed)
        × (t.workers ≡ [])
        × (t.supervisor ≡ Supervisor.quit)
        × (t.refresher ≡ Refresher.quit)
        × (t.mem.sessions ≡ next ∷ [])
  session_leaked lt = (
    _,
    redial c next version l Refresher.idle here
        ▸ work [] [] refl dial
        ▸ shut cancel
        ▸ shut (read refl)
        ▸ shut close
        ▸ work [] [] refl swap
        ▸ work [] [] refl clear
        ▸ supervise (Supervise.exit refl)
        ▸ refresh (Refresh.exit refl),
    refl,
    refl,
    refl,
    refl,
    ground arith,
  )
