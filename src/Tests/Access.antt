-- ===== src/Tests/Access.antt =====
-- The policy hooks, the views and the fetched tools on small inputs.
use mcp_multiplexer.Base.{
  if◌then◌else◌, ℕ, ◌≡◌, refl, Text, text_eq, text_beq, bytes, true, false, none, some, [], ◌∷◌,
  lookup, insert,
}
use mcp_multiplexer.Cache.Keys.{is_cacheable}
use mcp_multiplexer.Caller.Call.{call_tool}
use mcp_multiplexer.Context.{roles_key, texts}
use mcp_multiplexer.Errors.{hidden_server}
use mcp_multiplexer.Host.{Annotations, RawTool}
use mcp_multiplexer.View.{View, filter_by_names, filter_loop, call_tool_in_view}
use mcp_multiplexer.View.Laws
use mcp_multiplexer.View.Laws.{IsKnown}
use mcp_multiplexer.Fetch.{raw_info}
use mcp_multiplexer.Fetch.Laws.{is_cacheable-raw_info_iff}
use mcp_multiplexer.Base.{◌↔◌, contains}
use mcp_multiplexer.Context.{Context}
use mcp_multiplexer.Host.{err}
use mcp_multiplexer.Tests.Outside.{outside}
use mcp_multiplexer.Tests.Calls.{entry, mx, fresh}

abbrev admin : Context
admin = (roles_key, texts (bytes "admin" ∷ [])) ∷ []

abbrev only_k8s : View ℕ Text
only_k8s = record { parent = mx; names = bytes "k8s" ∷ []; servers = (bytes "k8s", entry) ∷ [] }

call_tool_in_view_example : call_tool_in_view outside only_k8s [] (bytes "vm") [] [] fresh ≡ (
    if contains (bytes "vm") (bytes "k8s" ∷ [])
    then call_tool outside only_k8s.parent [] (bytes "vm") [] [] fresh
    else (err (hidden_server (bytes "vm")), fresh))
unfolding text_beq lookup insert filter_by_names filter_loop
call_tool_in_view_example =
    Laws.call_tool_in_view_lem outside mx (bytes "k8s" ∷ []) only_k8s [] (bytes "vm") [] [] fresh
      refl

abbrev plain : RawTool
plain = record {
  name = bytes "get";
  description = [];
  input_schema = none;
  annotations = some (record {
    read_only_hint = true;
    destructive_hint = none;
    idempotent_hint = true;
    open_world_hint = none;
  });
}

-- A read-only tool whose annotations leave out the destructive hint is not cached.
plain_run : is_cacheable (raw_info (bytes "k8s") plain) ≡ false
unfolding is_cacheable raw_info
plain_run = refl

is_cacheable-raw_info_iff_example : (is_cacheable (raw_info (bytes "k8s") plain) ≡ true) ↔ (
    (a : Annotations) × (plain.annotations ≡ some a)
    × (a.read_only_hint ≡ true)
    × (a.idempotent_hint ≡ true)
    × (a.destructive_hint ≡ some false))
is_cacheable-raw_info_iff_example = is_cacheable-raw_info_iff (bytes "k8s") plain
