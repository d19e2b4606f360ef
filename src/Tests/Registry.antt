-- ===== src/Tests/Registry.antt =====
-- The registry of servers of the call runs: its names, kinds and tools, and a call that it refuses.
use mcp_multiplexer.Base.{
  ◌≡◌, refl, text_eq, text_beq, bytes, [], ◌∷◌, map, sort, insert, lookup, text_leb,
}
use mcp_multiplexer.Mux.Queries.{
  Servers, kind_of, tools_for_servers, tools_for_loop, tools_of, tools_loop, tool_key,
}
use mcp_multiplexer.Mux.Listed.{firsts, offered, tools_for_servers-firsts}
use mcp_multiplexer.Mux.KindGroups.{Lists, kind_groups}
use mcp_multiplexer.Mux.KindGroups.Laws.{group_of, kinds, kind_groups-group_of}
use mcp_multiplexer.Caller.Call.{call_tool}
use mcp_multiplexer.Caller.Rejections.{Agrees, refusal, call_tool-Agrees}
use mcp_multiplexer.Tests.Outside.{outside}
use mcp_multiplexer.Tests.Calls.{get_pod, entry, mx, fresh}

call_tool-Agrees_example :
    Agrees
      (refusal outside mx (bytes "vm") (bytes "get") [])
      (call_tool outside mx [] (bytes "vm") (bytes "get") [] fresh).0
call_tool-Agrees_example = call_tool-Agrees outside mx [] (bytes "vm") (bytes "get") [] fresh

abbrev two : Servers
two = (bytes "vm", entry) ∷ (bytes "k8s", entry) ∷ []

abbrev hints : Lists
hints = (bytes "kubernetes", bytes "use namespaces" ∷ []) ∷ []

kind_groups-group_of_example :
    kind_groups hints two ≡ map (group_of hints two) (sort (kinds two []))
kind_groups-group_of_example = kind_groups-group_of hints two

kind_groups_run :
    kind_groups hints two
    ≡ record {
      kind = bytes "kubernetes";
      servers = bytes "k8s" ∷ bytes "vm" ∷ [];
      tools = bytes "get" ∷ [];
      hints = bytes "use namespaces" ∷ [];
    }
      ∷ []
unfolding kind_groups kind_of insert lookup sort text_beq text_leb
kind_groups_run = refl

-- A name that is not registered, and one that is asked for twice.
tools_for_servers-firsts_example :
    tools_for_servers two (bytes "vm" ∷ bytes "old" ∷ bytes "k8s" ∷ bytes "vm" ∷ [])
    ≡ firsts [] (offered two (bytes "vm" ∷ bytes "old" ∷ bytes "k8s" ∷ bytes "vm" ∷ []))
tools_for_servers-firsts_example =
    tools_for_servers-firsts two (bytes "vm" ∷ bytes "old" ∷ bytes "k8s" ∷ bytes "vm" ∷ [])
      (refl, (refl, (refl, (refl, tt))))

tools_for_servers_run :
    tools_for_servers two (bytes "vm" ∷ bytes "old" ∷ bytes "k8s" ∷ bytes "vm" ∷ [])
    ≡ get_pod ∷ get_pod ∷ []
unfolding tools_for_servers tools_for_loop tools_of tools_loop tool_key lookup text_beq
tools_for_servers_run = refl
