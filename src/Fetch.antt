-- ===== src/Fetch.antt =====
-- fetchTools of multiplexer.go: from a server's tool list to ToolInfo, with the flags that its
-- annotations give and the MetaEnrichers; and the comparison and refresh of tool lists of
-- toolrefresh.go.
pub mod Laws
use mcp_multiplexer.Base.{
  ℕ, Text, text_eq, nat_eq, bytes, ◌==◌, if◌then◌else◌, Bool, true, false, not, ◌&&◌, Option, none,
  some, List, [], ◌∷◌, length, ℤ,
}
use mcp_multiplexer.Tool.{ToolInfo, zero_info}
use mcp_multiplexer.Host.{Host, Answer, ok, err, Annotations, RawTool, Session, Level, error}
use mcp_multiplexer.Options.{Options, MetaEnricher}
use mcp_multiplexer.Mux.{ServerEntry}

or_empty : Option Text → Text
or_empty none = []
or_empty (some raw) = raw

-- `a.DestructiveHint == nil || *a.DestructiveHint`
or_true : Option Bool → Bool
or_true none = true
or_true (some b) = b

or_false : Option Bool → Bool
or_false none = false
or_false (some b) = b

-- The flags of the annotations; without annotations a tool counts as destructive.
annotated : Option Annotations → ToolInfo → ToolInfo
unfolding or_true or_false
annotated none t = record t { destructive = true }
annotated (some a) t = record t {
  read_only = a.read_only_hint;
  destructive = or_true a.destructive_hint;
  idempotent = a.idempotent_hint;
  open_world = or_false a.open_world_hint;
}

with_write : ToolInfo → ToolInfo
with_write t = record t { write = not t.read_only && not t.destructive }

-- What is built for a tool before the enrichers see it.
unfoldable pub raw_info : Text → RawTool → ToolInfo
unfolding or_empty annotated with_write
raw_info server t = with_write (
    annotated t.annotations (record zero_info {
      server = server;
      name = t.name;
      description = t.description;
      input_schema = or_empty t.input_schema;
    }))

module _ {W E : Type 0} (opts : Options W E) where
  unfoldable pub enrich : List (MetaEnricher W E) → Text → ToolInfo → W → ToolInfo × W
  enrich [] server t w = (t, w)
  enrich (enricher ∷ enrichers) server t w =
      let (t', w') = enricher server t w in enrich enrichers server t' w'

  -- The loop over the tools of the answer.
  unfoldable pub fetch_loop : Text → List RawTool → W → List ToolInfo × W
  unfolding raw_info enrich
  fetch_loop server [] w = ([], w)
  fetch_loop server (t ∷ tools) w =
      let (info, w') = enrich opts.meta_enrichers server (raw_info server t) w in
      let (infos, w'') = fetch_loop server tools w' in (info ∷ infos, w'')

module _ {W E : Type 0} (host : Host W E) (opts : Options W E) where
  fetched : Text → Answer E (List RawTool) → W → Answer E (List ToolInfo) × W
  unfolding fetch_loop
  fetched server (err e) w = (err e, w)
  fetched server (ok tools) w =
      let (infos, w') = fetch_loop opts server tools w in
      (ok infos, opts.metrics.record_tool_list server (length infos) w')

  -- `fetchTools`, under a deadline if the context has one.
  unfoldable pub fetch_tools : Option ℤ → Text → Session → W → Answer E (List ToolInfo) × W
  unfolding fetched
  fetch_tools timeout server session w =
      let (answer, w') = host.list_tools timeout session w in fetched server answer w'

-- `toolListsEqual`: the lengths, then the pairs of names at each index.
same_names : List ToolInfo → List ToolInfo → Bool
same_names [] b = true
same_names (x ∷ a) [] = true
same_names (x ∷ a) (y ∷ b) = (x.server == y.server && x.name == y.name) && same_names a b

unfoldable pub tool_lists_equal : List ToolInfo → List ToolInfo → Bool
unfolding same_names
tool_lists_equal a b = length a == length b && same_names a b

module _ {W E : Type 0} (host : Host W E) (opts : Options W E) where
  -- The callback, if there is one and the list changed; a panic in it is recovered.
  notify : Text → List ToolInfo → List ToolInfo → W → W
  unfolding tool_lists_equal
  notify server before after w = elim opts.on_tools_changed [
    | none ↦ w
    | some f ↦ if tool_lists_equal before after then w else f server before after w
  ]

  unfoldable pub refreshed : Text → ServerEntry → Answer E (List ToolInfo) × W → ServerEntry × W
  unfolding notify
  refreshed server entry (err e, w) =
      (entry, opts.logger error (bytes "mcpx: tool refresh failed") w)
  refreshed server entry (ok tools, w) =
      (record entry { tools = tools }, notify server entry.tools tools w)

  unfoldable pub refresh_session : Text → ServerEntry → Option Session → W → ServerEntry × W
  unfolding refreshed
  refresh_session server entry none w = (entry, w)
  refresh_session server entry (some session) w =
      refreshed server entry (fetch_tools host opts (some opts.call_timeout) server session w)

  -- `applyToolRefresh`, where nothing else writes the entry in between.
  unfoldable pub apply_tool_refresh : Text → ServerEntry → W → ServerEntry × W
  unfolding refresh_session
  apply_tool_refresh server entry w =
      if entry.reconnecting then (entry, w) else refresh_session server entry entry.session w
