-- ===== src/Mux/Queries.antt =====
-- The read-only methods of multiplexer.go, and the views of filter.go. The maps are read under
-- their locks, so each method sees one state.
use mcp_multiplexer.Base.{
  Text, text_eq, bytes, if◌then◌else◌, Bool, true, false, Option, none, some, List, [], ◌∷◌, ◌++◌,
  is_empty, lookup, contains, sort,
}
use mcp_multiplexer.Tool.{ToolInfo}
use mcp_multiplexer.Mux.{ServerEntry, ServerState, connected, down}

abbrev pub Servers : Type 0
Servers = List (Text × ServerEntry)

abbrev pub is_live : ServerState → Bool
is_live connected = true
is_live down = false

-- The loop of `ServerNames`.
unfoldable pub live_names : Servers → List Text
live_names [] = []
live_names ((n, e) ∷ servers) =
    let names = live_names servers in if is_live e.state then n ∷ names else names

unfoldable pub server_names : Servers → List Text
unfolding live_names
server_names servers = sort (live_names servers)

-- The kind of a server: its name, if the configuration gives none.
unfoldable pub kind_of : Text → ServerEntry → Text
kind_of name e = if is_empty e.config.kind then name else e.config.kind

add_kind : Text → List Text → List Text
add_kind kind kinds = if contains kind kinds then kinds else kinds ++ kind ∷ []

kinds_step : Option ServerEntry → Text → List Text → List Text
unfolding kind_of add_kind
kinds_step none name kinds = kinds
kinds_step (some e) name kinds = add_kind (kind_of name e) kinds

-- The loop of `KindsForServers`: the kinds seen are the kinds collected.
unfoldable pub kinds_loop : Servers → List Text → List Text → List Text
unfolding kinds_step
kinds_loop servers [] kinds = kinds
kinds_loop servers (name ∷ names) kinds =
    kinds_loop servers names (kinds_step (lookup name servers) name kinds)

unfoldable pub kinds_for_servers : Servers → List Text → List Text
unfolding kinds_loop
kinds_for_servers servers names = kinds_loop servers names []

-- The key under which `ToolsForServers` remembers a tool of a server.
unfoldable pub tool_key : Text → Text → Text
tool_key server tool = server ++ (bytes "/" ++ tool)

-- The inner loop of `ToolsForServers`: the keys seen and the tools collected.
unfoldable pub tools_loop :
    Text → List ToolInfo → List Text × List ToolInfo → List Text × List ToolInfo
unfolding tool_key
tools_loop name [] acc = acc
tools_loop name (t ∷ tools) (seen, result) = tools_loop name tools (
    if contains (tool_key name t.name) seen
    then (seen, result)
    else (tool_key name t.name ∷ seen, result ++ t ∷ []))

unfoldable pub tools_of :
    Text → Option ServerEntry → List Text × List ToolInfo → List Text × List ToolInfo
unfolding tools_loop
tools_of name none acc = acc
tools_of name (some e) acc = tools_loop name e.tools acc

unfoldable pub tools_for_loop :
    Servers → List Text → List Text × List ToolInfo → List Text × List ToolInfo
unfolding tools_of
tools_for_loop servers [] acc = acc
tools_for_loop servers (name ∷ names) acc =
    tools_for_loop servers names (tools_of name (lookup name servers) acc)

unfoldable pub tools_for_servers : Servers → List Text → List ToolInfo
unfolding tools_for_loop
tools_for_servers servers names = (tools_for_loop servers names ([], [])).1

unfoldable pub all_tools : Servers → List ToolInfo
all_tools [] = []
all_tools ((n, e) ∷ servers) = e.tools ++ all_tools servers

unfoldable pub server_status : Servers → List (Text × ServerState)
server_status [] = []
server_status ((n, e) ∷ servers) = (n, e.state) ∷ server_status servers
