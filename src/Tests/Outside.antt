-- ===== src/Tests/Outside.antt =====
-- A small outside world for the runs: a clock that ticks at every reading, one JSON document, a
-- server that answers every call with one text.
use mcp_multiplexer.Base.{ℕ, suc, Text, bytes, false, none, some, [], ◌∷◌}
use mcp_multiplexer.Json.{obj, Fields, end, field, str}
use mcp_multiplexer.Transform.{Unicode}
use mcp_multiplexer.Validate.{checked}
use mcp_multiplexer.Host.{Host, ok, text_content}

-- No text of the runs is outside ASCII.
abbrev ascii_only : Unicode
ascii_only = record { lower = λ s. s; trim = λ s. s }

-- Every text is read as the object `{"pod_name": "a"}`, and every value printed as that.
abbrev pub document : Fields
document = field (bytes "pod_name") (str (bytes "a")) end

abbrev pub outside : Host ℕ Text
outside = record {
  unicode = ascii_only;
  unmarshal = λ s. ok (obj document);
  marshal = λ v. some (bytes "{}");
  not_object = λ v. bytes "not an object";
  parse_duration = λ s. none;
  check_schema = λ schema s. checked [];
  now = λ w. (w, suc w);
  call_tool = λ ctx timeout session tool args w.
      (ok (some (record { content = text_content (bytes "done") ∷ []; is_error = false })), suc w);
  list_tools = λ timeout session w. (ok [], w);
  close = λ session w. (none, w);
}
