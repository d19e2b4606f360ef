-- ===== src/Reconnect/Goroutines.antt =====
-- applyToolRefresh, and what a round of runSupervisor does for one server, as functions, against the
-- steps of their goroutines in Lifecycle.antt.
use mcp_multiplexer.Base.{
  ℕ, Text, text_eq, ◌≡◌, refl, ◌⊎◌, inl, inr, Bool, ◌∙◌, true, false, Option, none, some, List, [],
  ◌∷◌, ◌++◌, insert, contains, nat_eq, Bool-cases, if◌then◌else◌, arith,
}
use mcp_multiplexer.Tool.{ToolInfo}
use mcp_multiplexer.Errors.{Failure}
use mcp_multiplexer.Host.{Host, Answer, ok, err, Session}
use mcp_multiplexer.Options.{Options}
use mcp_multiplexer.Mux.{Mux, ServerEntry}
use mcp_multiplexer.Fetch.{fetch_tools, refreshed, refresh_session, apply_tool_refresh}
use mcp_multiplexer.Health.{probe_server}
use mcp_multiplexer.Reconnect.{Claims, claim, check_server}
use mcp_multiplexer.Lifecycle.{
  Shared, Refresher, taken, checked, leave_it, go_on, no_session, ask, no_answer, answer, Refresh,
  Supervisor, Supervise, skip, probe, alive, dead, stay, spawned, System, here, more,
}
use mcp_multiplexer.Lifecycle.Shutdown.{Leads, refresh_at, supervise_at}
use mcp_multiplexer.Lifecycle.Progress.{first}
use mcp_multiplexer.Reconnect.Refinement.{is_some, Shows}

-- What a refresh of the entry lists, if it lists anything: nothing while the server is being
-- reconnected, or without a session; else what `fetchTools` gives for the session of the entry.
abbrev got : {E : Type 0} → Answer E (List ToolInfo) → Option (List ToolInfo)
got (err x) = none
got (ok tools) = some tools

abbrev asked_of :
    {W E : Type 0} → Host W E → Options W E → Text → Option Session → W → Option (List ToolInfo)
asked_of host opts server none w = none
asked_of host opts server (some session) w =
    got (fetch_tools host opts (some opts.call_timeout) server session w).0

abbrev pub news_of :
    {W E : Type 0} → Host W E → Options W E → Text → ServerEntry → W → Option (List ToolInfo)
news_of host opts server e w =
    if e.reconnecting then none else asked_of host opts server e.session w

-- The refresh is over. Without news it has left the entry and the shared state as they were; else it
-- has put the tools that were listed into the entry, and into the shared state the list that the
-- session gave, as the server has it.
abbrev pub RefreshedAt :
    ServerEntry → Shared → Option (List ToolInfo) → ServerEntry → System → Type 0
RefreshedAt e m none e' t = (t.refresher ≡ Refresher.idle) × (e' ≡ e) × (t.mem ≡ m)
RefreshedAt e m (some tools) e' t =
    (t.refresher ≡ Refresher.idle)
    × (e' ≡ record e { tools = tools })
    × ((c : ℕ) × (m.session ≡ some c)
        × (t.mem ≡ record m { tools = some (record { session = c; version = m.version }) }))

-- The server is done with: nothing has changed; or the flag is set, in the entry and in the shared
-- state, and a reconnection has been started.
abbrev pub CheckedAt :
    Text → ServerEntry → List (Text × ServerEntry) → List Text → System → Claims → System → Type 0
CheckedAt name e servers started s claims t =
    (t.supervisor ≡ Supervisor.idle)
    × (((claims ≡ (servers, started)) × (t.mem ≡ s.mem) × (t.workers ≡ s.workers))
        ⊎ ((claims ≡ (insert name (record e { reconnecting = true }) servers, started ++ name ∷ []))
            × (t.mem ≡ record s.mem { reconnecting = true })
            × (t.workers ≡ spawned ∷ s.workers)))

module _ {W E : Type 0} (host : Host W E) (opts : Options W E) where
  refreshed-RefreshedAt :
      (server : Text) (e : ServerEntry) (r : Answer E (List ToolInfo) × W) (s : System) (c : ℕ)
      → s.refresher ≡ Refresher.asking c
      → s.mem.session ≡ some c
      → contains c s.mem.sessions ≡ true
      → Leads (RefreshedAt e s.mem (got r.0) (refreshed host opts server e r).0) s
  unfolding refreshed
  refreshed-RefreshedAt server e (err x, w) s c at has listens =
      (_, more here (refresh_at at no_answer), (refl, refl, refl))
  refreshed-RefreshedAt server e (ok tools, w) s c at has listens = (
    _,
    more (more here (refresh_at at (answer listens))) (refresh_at refl Refresh.write),
    (refl, refl, (c, has, refl)),
  )

  session-RefreshedAt :
      (server : Text) (e : ServerEntry) (o : Option Session) (m : Option ℕ) (w : W) (s : System)
      → s.refresher ≡ checked
      → s.mem.session ≡ m
      → is_some m ≡ is_some o
      → ((c : ℕ) → s.mem.session ≡ some c → contains c s.mem.sessions ≡ true)
      → Leads
          (RefreshedAt e s.mem
            (asked_of host opts server o w)
            (refresh_session host opts server e o w).0)
          s
  unfolding refresh_session
  session-RefreshedAt server e none none w s at has same listens =
      (_, more here (refresh_at at (no_session has)), (refl, refl, refl))
  session-RefreshedAt server e none (some c) w s at has same listens = absurd (ground arith)
  session-RefreshedAt server e (some d) none w s at has same listens = absurd (ground arith)
  session-RefreshedAt server e (some d) (some c) w s at has same listens =
      let (t, r, h) = refreshed-RefreshedAt server e _ _ c refl has (listens c has) in
      (t, first (refresh_at at (ask has)) r, h)

  guarded-RefreshedAt :
      (server : Text) (e : ServerEntry) (w : W) (s : System) (reconnecting : Bool)
      → s.mem.reconnecting ≡ reconnecting
      → s.refresher ≡ taken
      → is_some s.mem.session ≡ is_some e.session
      → ((c : ℕ) → s.mem.session ≡ some c → contains c s.mem.sessions ≡ true)
      → Leads
          (RefreshedAt e s.mem
            (if reconnecting then none else asked_of host opts server e.session w)
            (if reconnecting then (e, w) else refresh_session host opts server e e.session w).0)
          s
  guarded-RefreshedAt server e w s true flag at same listens =
      (_, more here (refresh_at at (leave_it flag)), (refl, refl, refl))
  guarded-RefreshedAt server e w s false flag at same listens =
      let (t, r, h) =
        session-RefreshedAt server e e.session s.mem.session w _ refl refl same listens in
      (t, first (refresh_at at (go_on flag)) r, h)

  -- applyToolRefresh implements the steps of the refresh goroutine: from a state that shows the
  -- entry, with the signal taken and the session open, there is a run at whose end the refresh is
  -- over. If the server is not being reconnected and fetchTools gives a list of tools for the session
  -- of the entry, then the function has put exactly these tools into the entry, and the run the list
  -- that the session gave into the state; otherwise both are as they were.
  pub apply_tool_refresh-RefreshedAt :
      (server : Text) (e : ServerEntry) (w : W) (s : System)
      → s.refresher ≡ taken
      → Shows e s.mem
      → ((c : ℕ) → s.mem.session ≡ some c → contains c s.mem.sessions ≡ true)
      → Leads
          (RefreshedAt e s.mem
            (news_of host opts server e w)
            (apply_tool_refresh host opts server e w).0)
          s
  unfolding apply_tool_refresh
  apply_tool_refresh-RefreshedAt server e w s at shows listens =
      guarded-RefreshedAt server e w s e.reconnecting shows.1 at shows.2 listens

module _ {W E : Type 0} (host : Host W E) where
  claim-CheckedAt :
      (name : Text) (e : ServerEntry) (servers : List (Text × ServerEntry)) (started : List Text)
      (r : Option (Failure E) × W) (s : System)
      → s.supervisor ≡ Supervisor.probing
      → s.mem.reconnecting ≡ false
      → s.mem.cancelled ≡ false
      → Leads (CheckedAt name e servers started s (claim host name e (servers, started) r).0) s
  unfolding claim
  claim-CheckedAt name e servers started (none, w) s at clear live =
      (_, more here (supervise_at at alive), (refl, inl (refl, refl, refl)))
  claim-CheckedAt name e servers started (some x, w) s at clear live = (
    _,
    more (more (more here (supervise_at at dead)) (supervise_at refl (stay live)))
        (supervise_at refl (Supervise.claim clear)),
    (refl, inr (refl, refl, refl)),
  )

  -- What a round of runSupervisor does for a server implements the steps of its goroutine: from a
  -- state that shows the entry, with the context not cancelled, there is a run at whose end the
  -- supervisor is idle, and a reconnection has been started in the state, its flag set there and in
  -- the entry, exactly if the function starts one; otherwise nothing has changed.
  pub check_server-CheckedAt :
      (mx : Mux W E) (name : Text) (e : ServerEntry) (servers : List (Text × ServerEntry))
      (started : List Text) (w : W) (s : System)
      → s.supervisor ≡ Supervisor.idle
      → s.mem.cancelled ≡ false
      → Shows e s.mem
      → Leads
          (CheckedAt name e servers started s
            (check_server host mx name (some e) (servers, started) w).0)
          s
  unfolding check_server
  check_server-CheckedAt mx name e servers started w s at live shows =
      elim (Bool-cases e.reconnecting) [
        | inl q ↦
            simp q (
              (_, more here (supervise_at at (skip (shows.1 ∙ q))), (refl, inl (refl, refl, refl))))
        | inr q ↦
            let (t, r, h) =
              claim-CheckedAt name e servers started
                (probe_server host (record mx { servers = servers }) name
                  mx.opts.health_check_interval w)
                (record s { supervisor = Supervisor.probing }) refl (shows.1 ∙ q) live in
            simp q (t, first (supervise_at at (probe (shows.1 ∙ q))) r, h)
      ]
