-- ===== src/New/Connect.antt =====
-- New of multiplexer.go from its connections on, and connect. `order` is the
-- order in which the goroutines that connect end, and each is taken as one step.
pub mod Opened
pub mod Registration
pub mod Calls
use mcp_multiplexer.Base.{
  Text, text_eq, bytes, ◌==◌, if◌then◌else◌, Bool, true, false, not, ◌&&◌, Option, none, some, List,
  [], ◌∷◌, ◌++◌, keys, insert, ℤ, pos, negsuc, ltb_ℤ, nat_eq, ℕ,
}
use mcp_multiplexer.Config.{ServerConfig, MultiplexerConfig}
use mcp_multiplexer.Tool.{ToolInfo}
use mcp_multiplexer.Errors.{Failure, connect_failed, list_tools_failed}
use mcp_multiplexer.Host.{Host, Answer, ok, err, Session, Level, error}
use mcp_multiplexer.Options.{Options, Setting, apply_settings, default_options}
use mcp_multiplexer.Transport.{Transport, new_transport}
use mcp_multiplexer.Fetch.{fetch_tools}
use mcp_multiplexer.Cache.Lru.{Lru, new_lru_cache}
use mcp_multiplexer.Mux.{Mux, ServerEntry, connected, down}
use mcp_multiplexer.New.{new_error, effective_config}

-- `os.Environ()`, and `(*mcp.Client).Connect` for a client's name and version.
pub record Dialer (W E : Type 0) : Type 0 where
  pub environ : List Text
  pub connect : Text → Text → Transport W E → W → Answer E Session × W

-- The servers registered, and `failedServers`.
abbrev pub Joined : Type 0
Joined = List (Text × ServerEntry) × List Text

-- What stands for a server that could not be connected.
abbrev pub stub_entry : ServerConfig → ServerEntry
stub_entry cfg = record {
  config = cfg;
  session = none;
  tools = [];
  state = down;
  reconnecting = true;
  refresh_ch = some false;
}

module _ {W E : Type 0} (host : Host W E) (dialer : Dialer W E) (opts : Options W E) where
  -- A session whose tools cannot be listed is closed.
  listed :
      ServerConfig
      → Option Bool
      → Session
      → Answer E (List ToolInfo) × W
      → Answer (Failure E) ServerEntry × W
  listed cfg ch session (err e, w) =
      let (x, w') = host.close session w in (err (list_tools_failed cfg.name e), w')
  listed cfg ch session (ok tools, w) = (
    ok (record {
      config = cfg;
      session = some session;
      tools = tools;
      state = connected;
      reconnecting = false;
      refresh_ch = ch;
    }),
    w,
  )

  dialled : ServerConfig → Option Bool → Answer E Session × W → Answer (Failure E) ServerEntry × W
  unfolding listed
  dialled cfg ch (err e, w) = (err (connect_failed cfg.name e), w)
  dialled cfg ch (ok session, w) =
      listed cfg ch session (fetch_tools host opts none cfg.name session w)

  opened :
      ServerConfig
      → Option Bool
      → Answer (Failure E) (Transport W E)
      → W
      → Answer (Failure E) ServerEntry × W
  unfolding dialled
  opened cfg ch (err e) w = (err e, w)
  opened cfg ch (ok transport) w =
      dialled cfg ch (dialer.connect opts.client_name opts.client_version transport w)

  channel : Option Bool → Option Bool
  channel none = some false
  channel (some b) = some b

  -- `connect`; a nil channel is replaced by a new one.
  unfoldable pub connect : ServerConfig → Option Bool → W → Answer (Failure E) ServerEntry × W
  unfolding opened channel
  connect cfg ch w = opened cfg (channel ch) (new_transport opts dialer.environ cfg) w

  -- `onConnect`; a panic in it is recovered.
  announce : Text → List ToolInfo → W → W
  announce name tools w = elim opts.on_connect [ none ↦ w | some f ↦ f name tools w ]

  join_with : ServerConfig → Answer (Failure E) ServerEntry × W → Joined → Joined × W
  unfolding announce
  join_with cfg (err e, w) (servers, failed) = (
    (insert cfg.name (stub_entry cfg) servers, failed ++ cfg.name ∷ []),
    opts.logger error (bytes "mcpx: failed to connect") w,
  )
  join_with cfg (ok entry, w) (servers, failed) =
      ((insert cfg.name entry servers, failed), announce cfg.name entry.tools w)

  -- The goroutine of `New` for a server.
  join_server : ServerConfig → Joined → W → Joined × W
  unfolding join_with
  join_server cfg acc w = join_with cfg (connect cfg (some false) w) acc

  unfoldable pub join_servers : MultiplexerConfig → List ServerConfig → Joined → W → Joined × W
  unfolding join_server
  join_servers cfg [] acc w = (acc, w)
  join_servers cfg (sc ∷ order) acc w =
      let (acc', w') = join_server (effective_config cfg sc) acc w in join_servers cfg order acc' w'

abbrev size_of : ℤ → ℕ
size_of (pos n) = n
size_of (negsuc n) = 0

-- The multiplexer with its own cache, and the goroutines that `New` starts: `reconnectServer` for
-- the servers that are down, `runToolRefresh` for each server, and the supervisor.
pub record Started (W E : Type 0) : Type 0 where
  pub mux : Mux W E
  pub builtin_cache : Option Lru
  pub reconnects : List Text
  pub refreshes : List Text
  pub supervised : Bool

module _ {W E : Type 0} (opts : Options W E) where
  -- A cache that is not positive in size holds nothing, whatever the size.
  unfoldable pub builtin_of : Option Lru
  builtin_of =
      if not opts.cache_disabled
      then elim opts.cache [ none ↦ some (new_lru_cache (size_of opts.cache_size)) | some c ↦ none ]
      else none

  started : MultiplexerConfig → List (Text × ServerEntry) × List Text → Started W E
  unfolding builtin_of
  started cfg (servers, failed) = record {
    mux = record { servers = servers; kind_hints = cfg.kind_hints; opts = opts };
    builtin_cache = builtin_of;
    reconnects = failed;
    refreshes = keys servers;
    supervised = ltb_ℤ (pos 0) opts.health_check_interval;
  }

module _ {W E : Type 0} (host : Host W E) (dialer : Dialer W E) where
  -- `New`, with the options already applied.
  unfoldable pub new_mux :
      Options W E → MultiplexerConfig → List ServerConfig → W → Answer (Failure E) (Started W E) × W
  unfolding started join_servers
  new_mux opts cfg order w = elim (new_error opts cfg) [
    | some e ↦ (err e, w)
    | none ↦
        let (joined, w') = join_servers host dialer opts cfg order ([], []) w in
        (ok (started opts cfg joined), w')
  ]
