-- ===== src/Tests/Programs.antt =====
-- The basic program where neither of its servers can be connected.
use mcp_multiplexer.Base.{◌≡◌, refl, text_eq, text_beq, bytes, none, some, insert, lookup, []}
use mcp_multiplexer.Config.{validate}
use mcp_multiplexer.Errors.{tool_not_found}
use mcp_multiplexer.Options.{default_options}
use mcp_multiplexer.Transport.{new_transport}
use mcp_multiplexer.Fetch.{fetch_tools}
use mcp_multiplexer.New.{new_error, effective_config}
use mcp_multiplexer.New.Connect.{new_mux, join_servers, connect}
use mcp_multiplexer.Caller.Call.{call_tool, with_server, with_tool, find_tool, reject}
use mcp_multiplexer.Examples.Programs.{basic_config, not_called, basic_run}
use mcp_multiplexer.Tests.Outside.{outside}
use mcp_multiplexer.Tests.Connecting.{dialer}

basic_run_test :
    (basic_run outside dialer none (λ line w. w) (λ line w. w) (λ e. []) basic_config.servers 0).0
    ≡ some (not_called (tool_not_found (bytes "list_directory") (bytes "files")))
unfolding basic_run new_mux join_servers connect new_transport fetch_tools new_error
    effective_config validate text_beq lookup insert default_options call_tool with_server with_tool
    find_tool reject
basic_run_test = refl
