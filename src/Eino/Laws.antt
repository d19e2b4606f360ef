-- ===== src/Eino/Laws.antt =====
-- What running a tool of eino comes to.
use mcp_multiplexer.Base.{
  Text, text_eq, ◌≡◌, refl, sym, ap, ◌∙◌, ◌==◌, Option, none, some, List, [], ◌∷◌, ◌++◌, lookup,
  contains, ==_refl, All, All-append, if_cases, Bool-cases, inl, inr,
}
use mathlib.Core.List.{append_assoc}
use mcp_multiplexer.Tool.{ToolInfo}
use mcp_multiplexer.Mux.{ServerEntry}
use mcp_multiplexer.Mux.Queries.{
  Servers, tools_for_servers, tools_for_loop, tools_loop, tools_of, tool_key,
}
use mcp_multiplexer.Caller.Call.{find_tool}
use mcp_multiplexer.Eino.{McpxTool, tools, tools_for_server, wrap_for}

-- The server is registered and one of its tools has the name.
abbrev pub Callable : Servers → McpxTool → Type 0
Callable servers t =
    (e : ServerEntry) × (lookup t.server servers ≡ some e)
    × (ti : ToolInfo) × (find_tool t.info.name e.tools ≡ some ti)

found-find_tool :
    (before after : List ToolInfo) (ti : ToolInfo)
    → (x : ToolInfo) × (find_tool ti.name (before ++ ti ∷ after) ≡ some x)
unfolding find_tool
found-find_tool [] after ti = (ti, rw (==_refl ti.name) refl)
found-find_tool (b ∷ before) after ti = elim (Bool-cases (b.name == ti.name)) [
  | inl e ↦ (b, rw e refl)
  | inr e ↦ let (x, q) = found-find_tool before after ti in (x, rw e q)
]

-- Each tool of the entry is found under its name.
abbrev Found : ServerEntry → ToolInfo → Type 0
Found e ti = (x : ToolInfo) × (find_tool ti.name e.tools ≡ some x)

all_found :
    (e : ServerEntry) (before tools : List ToolInfo)
    → e.tools ≡ before ++ tools
    → All (Found e) tools
all_found e before [] q = tt
all_found e before (ti ∷ tools) q =
    let (x, found) = found-find_tool before tools ti in
    (
      (x, ap (find_tool ti.name) q ∙ found),
      all_found e (before ++ ti ∷ []) tools (q ∙ sym (append_assoc before (ti ∷ []) tools)),
    )

tools_loop-All :
    (Holds : ToolInfo → Type 0) (server : Text) (tools : List ToolInfo) (seen : List Text)
    (result : List ToolInfo)
    → All Holds result
    → All Holds tools
    → All Holds (tools_loop server tools (seen, result)).1
unfolding tools_loop
tools_loop-All Holds server [] seen result h k = h
tools_loop-All Holds server (t ∷ tools) seen result h k =
    if_cases (λ acc. All Holds (tools_loop server tools acc).1)
      (contains (tool_key server t.name) seen) _ _
      (tools_loop-All Holds server tools seen result h k.1)
      (tools_loop-All Holds server tools (tool_key server t.name ∷ seen) (result ++ t ∷ [])
        (All-append Holds result (t ∷ []) h (k.0, tt)) k.1)

wrap_for-Callable :
    (servers : Servers) (server : Text) (e : ServerEntry) (tools : List ToolInfo)
    → lookup server servers ≡ some e
    → All (Found e) tools
    → All (Callable servers) (wrap_for server tools)
unfolding wrap_for
wrap_for-Callable servers server e [] q h = tt
wrap_for-Callable servers server e (ti ∷ tools) q ((x, found), h) =
    ((e, q, x, found), wrap_for-Callable servers server e tools q h)

tools_of-Callable :
    (servers : Servers) (server : Text) (o : Option ServerEntry)
    → lookup server servers ≡ o
    → All (Callable servers) (wrap_for server (tools_of server o ([], [])).1)
unfolding tools_of wrap_for
tools_of-Callable servers server none q = tt
tools_of-Callable servers server (some e) q =
    wrap_for-Callable servers server e _ q
      (tools_loop-All (Found e) server e.tools [] [] tt (all_found e [] e.tools refl))

-- Every tool that ToolsForServer gives can be called, as long as the servers stay as they are: its
-- server is registered, and has a tool of its name.
pub tools_for_server-Callable :
    (servers : Servers) (server : Text) → All (Callable servers) (tools_for_server servers server)
unfolding tools_for_server tools_for_servers tools_for_loop
tools_for_server-Callable servers server =
    tools_of-Callable servers server (lookup server servers) refl
