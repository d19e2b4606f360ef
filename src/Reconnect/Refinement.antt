-- ===== src/Reconnect/Refinement.antt =====
-- reconnectServer as a function, against the steps of its goroutine in Lifecycle.antt.
use mcp_multiplexer.Base.{◌≡◌, Bool, true, false, Option, none, some, [], ◌⊎◌}
use mcp_multiplexer.Host.{Host, ok, Session}
use mcp_multiplexer.Options.{Options}
use mcp_multiplexer.Mux.{ServerEntry, connected, down}
use mcp_multiplexer.New.Connect.{Dialer, connect}
use mcp_multiplexer.New.Connect.Opened.{Opened}
use mcp_multiplexer.Lifecycle.{Listing, Shared, System}

abbrev pub is_some {ℓ} : {A : Type ℓ} → Option A → Bool
is_some none = false
is_some (some a) = true

-- The shared state shows the entry, up to the identity of the session and the tools.
abbrev pub Shows : ServerEntry → Shared → Type 0
Shows e m =
    (m.state ≡ e.state)
    × (m.reconnecting ≡ e.reconnecting)
    × (is_some m.session ≡ is_some e.session)

-- The goroutine has ended, and the shared state shows the entry.
abbrev pub EndsAt : ServerEntry → System → Type 0
EndsAt e t = (t.workers ≡ []) × Shows e t.mem

module _ {W E : Type 0} (host : Host W E) (dialer : Dialer W E) (opts : Options W E) where
  -- An attempt has connected: the entry has the session and the tools that it gave, and the state a
  -- new session with the list of tools that this session gave.
  abbrev pub Adopts : ServerEntry → ServerEntry → System → Type 0
  Adopts before e t =
      (w : W) × (new : ServerEntry) × ((connect host dialer opts before.config before.refresh_ch
          w).0
        ≡ ok new)
      × (e ≡ record before {
        session = new.session;
        tools = new.tools;
        state = connected;
        reconnecting = false;
      })
      × ((l : Listing) × (t.mem.session ≡ some l.session) × (t.mem.tools ≡ some l))

  -- The context was cancelled first: the entry and the state have the session and the tools that
  -- they had.
  abbrev pub GivesUp : ServerEntry → Shared → ServerEntry → System → Type 0
  GivesUp before m e t =
      (e ≡ record before { state = down; reconnecting = false })
      × (t.mem.cancelled ≡ true)
      × (t.mem.session ≡ m.session)
      × (t.mem.tools ≡ m.tools)

  abbrev pub Reconnects : ServerEntry → Shared → ServerEntry → System → Type 0
  Reconnects before m e t = EndsAt e t × (Adopts before e t ⊎ GivesUp before m e t)

  -- The world after a session, if there is one, was closed.
  abbrev pub after_close : Option Session → W → W
  after_close none w = w
  after_close (some c) w = (host.close c w).1
