-- ===== src/New/Connect/Opened.antt =====
-- What a successful connect gives: a connected entry with the server's configuration.
use mcp_multiplexer.Base.{text_eq, ◌≡◌, refl, Bool, false, Option, some, List}
use mcp_multiplexer.Config.{ServerConfig}
use mcp_multiplexer.Errors.{Failure}
use mcp_multiplexer.Host.{Host, Answer, ok, err, Session}
use mcp_multiplexer.Options.{Options}
use mcp_multiplexer.Tool.{ToolInfo}
use mcp_multiplexer.Transport.{Transport}
use mcp_multiplexer.Mux.{ServerEntry, connected}
use mcp_multiplexer.New.Connect.{Dialer, connect, opened, dialled, listed}

-- The entry is connected, with a session, and no reconnection is running.
abbrev pub IsConnected : ServerEntry → Type 0
IsConnected e =
    (e.state ≡ connected)
    × (e.reconnecting ≡ false)
    × ((session : Session) × (e.session ≡ some session))

module _ {W E : Type 0} (host : Host W E) (dialer : Dialer W E) (opts : Options W E) where
  -- A successful `connect` gives a connected entry.
  abbrev pub Opened : ServerConfig → Answer (Failure E) ServerEntry × W → Type 0
  Opened sc (err e, w) = Unit
  Opened sc (ok entry, w) = IsConnected entry × (entry.config ≡ sc)

  listed-Opened :
      (sc : ServerConfig) (ch : Option Bool) (session : Session) (r : Answer E (List ToolInfo) × W)
      → Opened sc (listed host dialer opts sc ch session r)
  unfolding listed
  listed-Opened sc ch session (err e, w) = tt
  listed-Opened sc ch session (ok tools, w) = ((refl, refl, (session, refl)), refl)

  dialled-Opened :
      (sc : ServerConfig) (ch : Option Bool) (r : Answer E Session × W)
      → Opened sc (dialled host dialer opts sc ch r)
  unfolding dialled
  dialled-Opened sc ch (err e, w) = tt
  dialled-Opened sc ch (ok session, w) = listed-Opened sc ch session _

  opened-Opened :
      (sc : ServerConfig) (ch : Option Bool) (r : Answer (Failure E) (Transport W E)) (w : W)
      → Opened sc (opened host dialer opts sc ch r w)
  unfolding opened
  opened-Opened sc ch (err e) w = tt
  opened-Opened sc ch (ok transport) w = dialled-Opened sc ch _

  pub connect-Opened :
      (sc : ServerConfig) (ch : Option Bool) (w : W) → Opened sc (connect host dialer opts sc ch w)
  unfolding connect
  connect-Opened sc ch w = opened-Opened sc _ _ w
