-- ===== src/New/Sessions.antt =====
-- from_sessions.go, and Close of multiplexer.go where nothing else writes the entries.
use mcp_multiplexer.Base.{
  Text, text_eq, bytes, false, Option, none, some, List, [], ◌∷◌, insert, pos,
}
use mcp_multiplexer.Config.{ServerConfig}
use mcp_multiplexer.Tool.{ToolInfo}
use mcp_multiplexer.Host.{Host, Answer, ok, err, Session, error}
use mcp_multiplexer.Options.{Options}
use mcp_multiplexer.Fetch.{fetch_tools}
use mcp_multiplexer.Mux.{Mux, ServerEntry, connected}

abbrev pub named_config : Text → ServerConfig
named_config name = record {
  name = name;
  kind = [];
  transport = [];
  binary = [];
  args = [];
  env = [];
  url = [];
  call_timeout = pos 0;
  auth = none;
  args_transformers = [];
  field_map = [];
  resource_singular = [];
}

-- The tools of a failed listing are nil.
tools_or_nil : {E : Type 0} → Answer E (List ToolInfo) → List ToolInfo
tools_or_nil (err e) = []
tools_or_nil (ok tools) = tools

session_entry : Text → Session → List ToolInfo → ServerEntry
session_entry name session tools = record {
  config = named_config name;
  session = some session;
  tools = tools;
  state = connected;
  reconnecting = false;
  refresh_ch = none;
}

module _ {W E : Type 0} (host : Host W E) (opts : Options W E) where
  -- The loop of `NewFromSessions`, over the sessions in the order of the range.
  unfoldable pub add_sessions :
      List (Text × Session) → List (Text × ServerEntry) → W → List (Text × ServerEntry) × W
  unfolding session_entry tools_or_nil
  add_sessions [] servers w = (servers, w)
  add_sessions ((name, session) ∷ sessions) servers w =
      let (tools, w') = fetch_tools host opts none name session w in
      add_sessions sessions (insert name (session_entry name session (tools_or_nil tools)) servers)
        w'

  -- `NewFromSessions`, with the options already applied.
  unfoldable pub new_from_sessions : List (Text × Session) → W → Mux W E × W
  unfolding add_sessions
  new_from_sessions sessions w =
      let (servers, w') = add_sessions sessions [] w in
      (record { servers = servers; kind_hints = []; opts = opts }, w')

  logged_close : Option E × W → W
  logged_close (none, w) = w
  logged_close (some e, w) = opts.logger error (bytes "mcpx: close session") w

  close_entry : Option Session → W → W
  unfolding logged_close
  close_entry none w = w
  close_entry (some session) w = logged_close (host.close session w)

  -- The loop of `Close`.
  unfoldable pub close_all : List (Text × ServerEntry) → W → W
  unfolding close_entry
  close_all [] w = w
  close_all ((name, e) ∷ servers) w = close_all servers (close_entry e.session w)
