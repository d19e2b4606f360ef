-- ===== src/Tests/Harness.antt =====
-- The test server with one tool, and captured log lines.
use mcp_multiplexer.Base.{
  ℕ, ◌≡◌, refl, Text, text_eq, text_beq, bytes, true, false, none, some, List, [], ◌∷◌, insert,
}
use mcp_multiplexer.Host.{info}
use mcp_multiplexer.Fetch.{raw_info}
use mcp_multiplexer.TestServer.{ToolSpec, Sdk, Server, with_tool, new_server, tool_of}
use mcp_multiplexer.TestServer.Laws.{raw_info-tool_of}
use mcp_multiplexer.Log.{Dynamic, string, other, Field, Captured, append, captured_contains}
use mcp_multiplexer.Tests.Outside.{outside}

abbrev names_only : Sdk (List Text) ℕ Text
names_only = record {
  new_server = λ name version. [];
  add_tool = λ t h names. t.name ∷ names;
  remove_tool = λ name names. [];
  object_schema = bytes "{}";
  wait = λ d ctx w. (none, w);
}

abbrev ping : ToolSpec ℕ Text
ping = record {
  name = bytes "ping";
  description = bytes "answers";
  handler = some (λ ctx args w. ((bytes "pong", none), w));
  read_only = some true;
  destructive = none;
  idempotent = none;
  open_world = none;
  input_schema = none;
}

abbrev server : Server (List Text) ℕ Text
server = record { specs = ping ∷ []; delays = []; errors = []; mcp_server = none; close_fns = [] }

server_run : new_server (with_tool ping ∷ []) ≡ server
unfolding new_server
server_run = refl

raw_info-tool_of_example : raw_info (bytes "k8s") (tool_of outside names_only ping) ≡ record {
  server = bytes "k8s";
  name = bytes "ping";
  description = bytes "answers";
  input_schema = bytes "{}";
  read_only = true;
  write = false;
  destructive = true;
  idempotent = false;
  open_world = false;
  custom = [];
}
raw_info-tool_of_example = raw_info-tool_of outside names_only (bytes "k8s") ping

abbrev fields : List (Field ℕ)
fields =
    record { key = bytes "server"; value = string (bytes "k8s") }
    ∷ record { key = bytes "n"; value = other 3 }
    ∷ []

abbrev sprint : Dynamic ℕ → Text
sprint (string s) = s
sprint (other n) = n ∷ []

abbrev captured : Captured ℕ
captured = append info (bytes "connected") fields []

captured_run : captured_contains sprint (bytes "8s") captured ≡ true
unfolding captured_contains append insert text_beq
captured_run = refl
