-- ===== src/Lifecycle/Promises.antt =====
-- The entry of a server under every order of the steps of its goroutines.
use mcp_multiplexer.Base.{ℕ, ◌≡◌, refl, true, false, Option, some, List, [], ◌∷◌, ◌⊎◌, inl, inr}
use mcp_multiplexer.Mux.{connected}
use mcp_multiplexer.Lifecycle.{
  Worker, spawned, closing, waiting, dialing, ready, swapped, System, Reach,
}
use mcp_multiplexer.Lifecycle.Invariant.{Core, core, Phase, Rooted, Tended, Unread, Reach-AllSound}

-- One goroutine runs `reconnectServer` for the server.
abbrev pub Alone : List Worker → Type 0
Alone ws = (w : Worker) × (ws ≡ w ∷ [])

-- The one that tends the server, if any.
who_tends :
    (k : Core) (t : Option ℕ) (ws : List Worker)
    → Tended k t ws
    → ((k.reconnecting ≡ false) × (ws ≡ []) × ((k.state ≡ connected) ⊎ (k.cancelled ≡ true)))
      ⊎ ((k.reconnecting ≡ true) × Alone ws)
who_tends k t [] h = inl (h.0, refl, h.1)
who_tends k t (w ∷ []) h = inr (h.0, (w, refl))
who_tends k t (v ∷ w ∷ ws) h = absurd h

-- Whatever the interleaving, no two goroutines reconnect the server at once: if `reconnecting` is
-- set then exactly one does, and if it is clear then none does, and the server is connected unless
-- `Close` has been called. So a server that is down is never left without a goroutine that tends it.
pub Reach-Alone :
    {s : System}
    → Reach s
    → ((s.mem.reconnecting ≡ false)
        × (s.workers ≡ [])
        × ((s.mem.state ≡ connected) ⊎ (s.mem.cancelled ≡ true)))
      ⊎ ((s.mem.reconnecting ≡ true) × Alone s.workers)
Reach-Alone {s} r = who_tends (core s.mem) _ s.workers (Reach-AllSound r).tended

-- Whatever the interleaving, as long as `Close` has not read the session, a server whose state is
-- connected has a session, and this session is open, the only one that is.
pub connected_open :
    {s : System}
    → Reach s
    → Unread s.closer
    → s.mem.state ≡ connected
    → (c : ℕ) × (s.mem.session ≡ some c) × (s.mem.sessions ≡ c ∷ [])
connected_open r u e = (Reach-AllSound r).live u e

-- The entry holds the session, or the reconnect goroutine is about to put it there.
abbrev pub Owned : System → ℕ → Type 0
Owned s c =
    (s.mem.session ≡ some c)
    ⊎ ((version : ℕ) × (s.workers ≡ ready (record { session = c; version = version }) ∷ []))

abbrev AllOwned : System → Type 0
AllOwned s = (s.mem.sessions ≡ []) ⊎ ((c : ℕ) × (s.mem.sessions ≡ c ∷ []) × Owned s c)

Rooted-AllOwned : (s : System) → Rooted (core s.mem) → AllOwned s
Rooted-AllOwned s (inl e) = inl e
Rooted-AllOwned s (inr (c, e, d)) = inr (c, d, inl e)

Phase-AllOwned :
    (s : System) (t : Option ℕ) (w : Worker)
    → s.workers ≡ w ∷ []
    → Phase (core s.mem) t w
    → AllOwned s
Phase-AllOwned s t spawned e p = Rooted-AllOwned s p
Phase-AllOwned s t (closing o) e p = Rooted-AllOwned s p.2
Phase-AllOwned s t (waiting n) e p = inl p.1
Phase-AllOwned s t (dialing n) e p = inl p.1
Phase-AllOwned s t (ready l) e p = inr (l.session, p.1, inr (l.version, e))
Phase-AllOwned s t swapped e p = Rooted-AllOwned s p.1

Tended-AllOwned :
    (s : System) (t : Option ℕ) (ws : List Worker)
    → s.workers ≡ ws
    → Tended (core s.mem) t ws
    → AllOwned s
Tended-AllOwned s t [] e h = Rooted-AllOwned s h.2
Tended-AllOwned s t (w ∷ []) e h = Phase-AllOwned s t w e h.1
Tended-AllOwned s t (v ∷ w ∷ ws) e h = absurd h

-- Whatever the interleaving, at most one session to the server is open, and it is the session of
-- the entry, or the new one that the reconnect goroutine is about to put there: reconnecting again
-- and again leaves no other session behind.
pub sessions-Owned :
    {s : System}
    → Reach s
    → (s.mem.sessions ≡ []) ⊎ ((c : ℕ) × (s.mem.sessions ≡ c ∷ []) × Owned s c)
sessions-Owned {s} r = Tended-AllOwned s _ s.workers refl (Reach-AllSound r).tended
