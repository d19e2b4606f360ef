-- ===== src/Tests/Interleavings.antt =====
-- Runs of the goroutines of one server, and the theorems at them.
use mcp_multiplexer.Base.{ℕ, ◌≡◌, refl, true, false, some, [], ◌∷◌, ◌⊎◌, arith, nat_eq}
use mcp_multiplexer.Mux.{connected, down}
use mcp_multiplexer.Lifecycle.{
  joined, shut, cancel, Listing, Worker, Refresher, Supervisor, Closer, System, Reach, Run, here,
  more, from_joined, from_stub, work, supervise, mark, close_none, wake, dial, swap, probe, dead,
  stay, claim,
}
use mcp_multiplexer.Lifecycle.Promises.{Alone, Owned, Reach-Alone, connected_open, sessions-Owned}
use mcp_multiplexer.Lifecycle.Progress.{Recovers, down-Recovers}
use mcp_multiplexer.Lifecycle.Shutdown.{Leads, Ended, cancelled-Ended}
use mcp_multiplexer.Lifecycle.Races
use mcp_multiplexer.Lifecycle.Races.{settled, StaleForGood}

-- A server that was down at the start, and has just been connected.
abbrev revived : System
revived = record {
  mem = record {
    state = connected;
    session = some 0;
    tools = some (record { session = 0; version = 4 });
    reconnecting = true;
    pending = false;
    cancelled = false;
    sessions = 0 ∷ [];
    next = 1;
    version = 4;
  };
  workers = Worker.swapped ∷ [];
  refresher = Refresher.idle;
  supervisor = Supervisor.idle;
  closer = Closer.fresh;
}

revived_reached : Reach revived
revived_reached =
    let marked : Run _ _ = more here (work [] [] refl mark) in
    let dialled : Run _ _ =
      more (more (more marked (work [] [] refl close_none)) (work [] [] refl wake))
        (work [] [] refl dial) in
    from_stub 4 (more dialled (work [] [] refl swap))

-- A server whose session was lost, and which the supervisor has just claimed.
abbrev lost : System
lost = record {
  mem = record {
    state = down;
    session = some 0;
    tools = some (record { session = 0; version = 4 });
    reconnecting = true;
    pending = false;
    cancelled = false;
    sessions = 0 ∷ [];
    next = 1;
    version = 4;
  };
  workers = Worker.closing (some 0) ∷ [];
  refresher = Refresher.idle;
  supervisor = Supervisor.idle;
  closer = Closer.fresh;
}

lost_run : Run (joined 4) lost
lost_run =
    let failed : Run _ _ = more (more here (supervise (probe refl))) (supervise dead) in
    more (more (more failed (supervise (stay refl))) (supervise (claim refl)))
      (work [] [] refl mark)

lost_reached : Reach lost
lost_reached = from_joined 4 lost_run

-- The same, when `Close` is called.
abbrev closing_down : System
closing_down = record lost { mem = record lost.mem { cancelled = true }; closer = Closer.cancelled }

cancelled-Ended_example : Leads (Ended closing_down.mem.next) closing_down
cancelled-Ended_example =
    cancelled-Ended {s = closing_down} (from_joined 4 (more lost_run (shut cancel))) refl

Reach-Alone_example :
    ((lost.mem.reconnecting ≡ false)
      × (lost.workers ≡ [])
      × ((lost.mem.state ≡ connected) ⊎ (lost.mem.cancelled ≡ true)))
    ⊎ ((lost.mem.reconnecting ≡ true) × Alone lost.workers)
Reach-Alone_example = Reach-Alone lost_reached

connected_open_example : (c : ℕ) × (revived.mem.session ≡ some c) × (revived.mem.sessions ≡ c ∷ [])
connected_open_example = connected_open revived_reached tt refl

sessions-Owned_example :
    (revived.mem.sessions ≡ []) ⊎ ((c : ℕ) × (revived.mem.sessions ≡ c ∷ []) × Owned revived c)
sessions-Owned_example = sessions-Owned revived_reached

down-Recovers_example : Recovers lost
down-Recovers_example = down-Recovers lost_reached refl refl

abbrev old_list : Listing
old_list = record { session = 0; version = 6 }

signal_lost_example : (t : System) × Run (settled 0 1 6 old_list) t × StaleForGood t
signal_lost_example = Races.signal_lost 0 1 6 old_list

late_write_example :
    (t : System) × Run (settled 0 1 6 old_list) t
    × StaleForGood t
    × (t.mem.session ≡ some 1)
    × (t.mem.tools ≡ some (record { session = 0; version = 6 }))
late_write_example = Races.late_write 0 1 6 old_list

session_leaked_example :
    (t : System) × Run (settled 0 1 6 old_list) t
    × (t.closer ≡ Closer.closed)
    × (t.workers ≡ [])
    × (t.supervisor ≡ Supervisor.quit)
    × (t.refresher ≡ Refresher.quit)
    × (t.mem.sessions ≡ 1 ∷ [])
session_leaked_example = Races.session_leaked 0 1 6 old_list (omega arith)
