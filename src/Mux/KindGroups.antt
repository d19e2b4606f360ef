-- ===== src/Mux/KindGroups.antt =====
-- KindGroups of multiplexer.go.
pub mod Laws
use mcp_multiplexer.Base.{
  Text, text_eq, if◌then◌else◌, Option, none, some, List, [], ◌∷◌, ◌++◌, map, keys, lookup, insert,
  contains, sort,
}
use mcp_multiplexer.Tool.{ToolInfo}
use mcp_multiplexer.Mux.{ServerEntry}
use mcp_multiplexer.Mux.Queries.{Servers, kind_of}

pub record KindGroup : Type 0 where
  pub kind : Text
  pub servers : List Text
  pub tools : List Text
  pub hints : List Text

abbrev pub Lists : Type 0
Lists = List (Text × List Text)

-- `m[k]`, nil where the key is missing.
abbrev pub list_at : Text → Lists → List Text
list_at k m = elim (lookup k m) [ none ↦ [] | some l ↦ l ]

-- An element of a set, which is held as a list without repetition.
abbrev pub add_to_set : Text → List Text → List Text
add_to_set t l = if contains t l then l else l ++ t ∷ []

-- The inner loop, over the tools of a server.
add_tools : List ToolInfo → List Text → List Text
add_tools [] l = l
add_tools (t ∷ tools) l = add_tools tools (add_to_set t.name l)

-- The loop over the servers: `serversByKind` and `toolSets`.
collect : Servers → Lists × Lists → Lists × Lists
unfolding add_tools
collect [] maps = maps
collect ((name, e) ∷ servers) (by_kind, tool_sets) =
    let kind = kind_of name e in
    collect servers (
      insert kind (list_at kind by_kind ++ name ∷ []) by_kind,
      insert kind (add_tools e.tools (list_at kind tool_sets)) tool_sets,
    )

group : Lists → Lists → Lists → Text → KindGroup
group hints by_kind tool_sets kind = record {
  kind = kind;
  servers = sort (list_at kind by_kind);
  tools = sort (list_at kind tool_sets);
  hints = list_at kind hints;
}

groups : Lists → Lists × Lists → List KindGroup
unfolding group
groups hints (by_kind, tool_sets) = map (group hints by_kind tool_sets) (sort (keys by_kind))

unfoldable pub kind_groups : Lists → Servers → List KindGroup
unfolding collect groups
kind_groups hints servers = groups hints (collect servers ([], []))
