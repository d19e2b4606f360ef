-- ===== src/Tests/Connecting.antt =====
-- A multiplexer for two servers, of which the second cannot be connected.
use mcp_multiplexer.Base.{
  if◌then◌else◌, ℕ, suc, refl, Text, text_eq, bytes, true, false, none, some, [], ◌∷◌, ltb_ℤ, pos,
  ◌==◌, arith, ==_refl, nat_eq,
}
use mcp_multiplexer.Config.{ServerConfig, MultiplexerConfig}
use mcp_multiplexer.Host.{Answer, ok, err}
use mcp_multiplexer.Options.{Options, default_options}
use mcp_multiplexer.Transport.{Transport, streamable}
use mcp_multiplexer.Mux.{ServerEntry, connected}
use mcp_multiplexer.Fetch.{apply_tool_refresh}
use mcp_multiplexer.New.Connect.{Dialer, Started, stub_entry, connect, builtin_of}
use mcp_multiplexer.Reconnect.{supervise_round, check_server}
use mcp_multiplexer.Reconnect.Laws.{ClaimedOnce, supervise_round-ClaimedOnce}
use mcp_multiplexer.Reconnect.Goroutines.{
  RefreshedAt, CheckedAt, news_of, apply_tool_refresh-RefreshedAt, check_server-CheckedAt,
}
use mcp_multiplexer.Lifecycle.{joined, System, taken, spawned}
use mcp_multiplexer.Lifecycle.Shutdown.{Leads}
use mcp_multiplexer.Tests.Outside.{outside}
use mcp_multiplexer.Tests.Settings.{remote}
use mcp_multiplexer.Tests.Calls.{entry}

abbrev reachable : Transport ℕ Text → ℕ → Answer Text ℕ × ℕ
reachable (streamable url client) w =
    (if url == bytes "http://k8s" then ok 7 else err (bytes "refused"), suc w)
reachable t w = (err (bytes "not found"), w)

abbrev pub dialer : Dialer ℕ Text
dialer = record { environ = []; connect = λ name version t w. reachable t w }

abbrev cluster : ServerConfig
cluster = record remote { name = bytes "vm"; url = bytes "http://vm" }

abbrev pair : MultiplexerConfig
pair = record { servers = remote ∷ cluster ∷ []; kind_settings = []; kind_hints = [] }

abbrev defaults : Options ℕ Text
defaults = default_options none

-- What `New` leaves: a reconnection is started for the second server.
abbrev result : Started ℕ Text
result = record {
  mux = record {
    servers =
        (
          bytes "k8s",
          record {
            config = remote;
            session = some 7;
            tools = [];
            state = connected;
            reconnecting = false;
            refresh_ch = some false;
          },
        )
        ∷ (bytes "vm", stub_entry cluster)
        ∷ [];
    kind_hints = [];
    opts = defaults;
  };
  builtin_cache = builtin_of defaults;
  reconnects = bytes "vm" ∷ [];
  refreshes = bytes "k8s" ∷ bytes "vm" ∷ [];
  supervised = ltb_ℤ (pos 0) defaults.health_check_interval;
}

supervise_round-ClaimedOnce_example :
    ClaimedOnce result.mux.servers
      (bytes "vm")
      (supervise_round outside result.mux
        (bytes "k8s" ∷ bytes "vm" ∷ [])
        (result.mux.servers, [])
        0).0
supervise_round-ClaimedOnce_example =
    supervise_round-ClaimedOnce outside result.mux (bytes "k8s" ∷ bytes "vm" ∷ []) (bytes "vm") 0

-- A server that is being reconnected, with the session that it had.
abbrev claimed : System
claimed = record (joined 4) {
  mem = record (joined 4).mem { reconnecting = true };
  workers = spawned ∷ [];
}

abbrev lost : ServerEntry
lost = record entry { reconnecting = true }

abbrev signalled : System
signalled = record (joined 4) { refresher = taken }

apply_tool_refresh-RefreshedAt_example :
    Leads
      (RefreshedAt entry signalled.mem
        (news_of outside defaults (bytes "k8s") entry 0)
        (apply_tool_refresh outside defaults (bytes "k8s") entry 0).0)
      signalled
apply_tool_refresh-RefreshedAt_example =
    apply_tool_refresh-RefreshedAt outside defaults (bytes "k8s") entry 0 signalled refl
      (refl, refl, refl) (λ c h. ground (arith, ==_refl {A = ℕ} 0, h))

check_server-CheckedAt_example :
    Leads
      (CheckedAt
        (bytes "k8s")
        entry
        result.mux.servers
        []
        (joined 4)
        (check_server outside result.mux (bytes "k8s") (some entry) (result.mux.servers, []) 0).0)
      (joined 4)
check_server-CheckedAt_example =
    check_server-CheckedAt outside result.mux (bytes "k8s") entry result.mux.servers [] 0 (joined 4)
      refl refl (refl, refl, refl)
