-- ===== src/Examples/Programs.antt =====
-- The programs of examples/basic/main.go, examples/policy/main.go and examples/redact/main.go: a
-- multiplexer is made, perhaps used, and closed, where nothing else writes its entries.
use mcp_multiplexer.Base.{
  ℕ, Text, text_eq, bytes, ◌≡◌, ap, ◌∙◌, inl, inr, Option, none, some, List, [], ◌∷◌, ◌++◌, true,
  false, contains, lookup, arith,
}
use mcp_multiplexer.Json.{str, field, end, obj}
use mcp_multiplexer.Context.{Context}
use mcp_multiplexer.Tool.{ToolInfo, CallResult}
use mcp_multiplexer.Config.{ServerConfig, MultiplexerConfig, transport_stdio, transport_http}
use mcp_multiplexer.Errors.{Failure, tool_not_found}
use mcp_multiplexer.Host.{Host, Answer, ok, err}
use mcp_multiplexer.Options.{
  Options, Setting, with_before_call, with_result_transform, apply_settings, default_options,
}
use mcp_multiplexer.Mux.{ServerEntry}
use mcp_multiplexer.New.Laws.{IsNew}
use mcp_multiplexer.New.Sessions.{named_config, close_all}
use mcp_multiplexer.New.Connect.{Dialer, Started, new_mux}
use mcp_multiplexer.New.Connect.Registration.{names, new_mux-opts}
use mcp_multiplexer.New.Connect.Calls.{new_mux-call_tool}
use mcp_multiplexer.Caller.Tally.{tally}
use mcp_multiplexer.Caller.Run.{Run}
use mcp_multiplexer.Caller.Call.{find_tool, call_tool}
use mcp_multiplexer.Examples.{redact, block_destructive, block_destructive-Unsent}

abbrev pub basic_config : MultiplexerConfig
basic_config = record {
  servers =
      record (named_config (bytes "files")) {
        transport = transport_stdio;
        binary = bytes "/usr/bin/mcp-server-filesystem";
        args = bytes "/tmp" ∷ [];
      }
      ∷ record (named_config (bytes "remote")) {
        transport = transport_http;
        url = bytes "http://localhost:3000";
      }
      ∷ [];
  kind_settings = [];
  kind_hints = [];
}

-- The configuration of the other two programs.
abbrev pub single_config : MultiplexerConfig
single_config = record {
  servers =
      record (named_config (bytes "myserver")) {
        transport = transport_http;
        url = bytes "http://localhost:3000";
      }
      ∷ [];
  kind_settings = [];
  kind_hints = [];
}

-- The error of `run`: "connect: …" or "call: …".
pub data RunError (E : Type 0) : Type 0 where
  not_connected not_called : Failure E → RunError E

-- `build` is the version in the build information; `print` and `complain` write a line to the
-- standard output and to the standard error; `show` is the text of an error.
module _ {W E : Type 0} (host : Host W E) (dialer : Dialer W E) (build : Option Text)
    (print complain : Text → W → W) (show : Failure E → Text) where
  -- The first call on a new multiplexer.
  abbrev pub fresh_run : Started W E → W → Run W E
  fresh_run t w = record {
    world = w;
    builtin_cache = t.builtin_cache;
    scope_warned = false;
    ttl_warned = [];
    trace = [];
  }

  abbrev pub close_mux : Started W E → W → W
  close_mux t w = close_all host t.mux.opts t.mux.servers w

  abbrev text_or_empty : Option Text → Text
  text_or_empty none = []
  text_or_empty (some s) = s

  abbrev path_args : Text
  path_args = text_or_empty (host.marshal (obj (field (bytes "path") (str (bytes "/tmp")) end)))

  called : Started W E → Answer (Failure E) CallResult × Run W E → Option (RunError E) × W
  called t (err e, s) = (some (not_called e), close_mux t s.world)
  called t (ok result, s) = (none, close_mux t (print result.text s.world))

  list_files : Answer (Failure E) (Started W E) × W → Option (RunError E) × W
  unfolding called
  list_files (err e, w) = (some (not_connected e), w)
  list_files (ok t, w) =
      called t
        (call_tool host t.mux [] (bytes "files") (bytes "list_directory") path_args (fresh_run t w))

  -- `run` of basic; `order` is the order in which the servers are connected.
  unfoldable pub basic_run : List ServerConfig → W → Option (RunError E) × W
  unfolding list_files
  basic_run order w = list_files (new_mux host dialer (default_options build) basic_config order w)

  shown : RunError E → Text
  shown (not_connected e) = bytes "connect: " ++ show e
  shown (not_called e) = bytes "call: " ++ show e

  -- A program ends with its exit code.
  exit_with : Option (RunError E) × W → ℕ × W
  unfolding shown
  exit_with (none, w) = (0, w)
  exit_with (some e, w) = (1, complain (shown e) w)

  -- `main` of basic
  unfoldable pub basic_main : List ServerConfig → W → ℕ × W
  unfolding exit_with
  basic_main order w = exit_with (basic_run order w)

  ready : Text → Answer (Failure E) (Started W E) × W → ℕ × W
  ready line (err e, w) = (1, complain (bytes "connect: " ++ show e) w)
  ready line (ok t, w) = (0, close_mux t (print line w))

  abbrev pub single : Setting W E → W → Answer (Failure E) (Started W E) × W
  single setting w =
      new_mux host dialer (apply_settings (setting ∷ []) (default_options build)) single_config
        single_config.servers w

  -- `main` of policy; `new` is `errors.New`.
  unfoldable pub policy_main : (Text → E) → W → ℕ × W
  unfolding ready
  policy_main new w =
      ready (bytes "Multiplexer ready. Destructive tools are blocked.")
        (single (with_before_call (block_destructive new)) w)

  -- `main` of redact; `replace` is its `ReplaceAllString`.
  unfoldable pub redact_main : (Text → Text) → W → ℕ × W
  unfolding ready
  redact_main replace w =
      ready (bytes "Multiplexer ready. SSN values will be redacted from results.")
        (single (with_result_transform (redact replace)) w)

  list_files-ok :
      (t : Started W E) (r : Answer (Failure E) (Started W E) × W)
      → r.0 ≡ ok t
      → list_files r ≡ list_files (ok t, r.1)
  list_files-ok t r made = ap (λ a. list_files (a, r.1)) made

  called-error :
      (t : Started W E) (e : Failure E) (out : Answer (Failure E) CallResult × Run W E)
      → out.0 ≡ err e
      → (called t out).0 ≡ some (not_called e)
  unfolding called
  called-error t e out failed = ap (λ a. (called t (a, out.1)).0) failed

  -- If "files" could not be connected, `run` ends with the error of its call: there is no such tool.
  pub basic_run_lost :
      (order : List ServerConfig) (t : Started W E) (w : W)
      → IsNew [] order
      → contains (bytes "files") (names order) ≡ true
      → (new_mux host dialer (default_options build) basic_config order w).0 ≡ ok t
      → contains (bytes "files") t.reconnects ≡ true
      → (basic_run order w).0
        ≡ some (not_called (tool_not_found (bytes "list_directory") (bytes "files")))
  unfolding basic_run list_files
  basic_run_lost order t w new among made lost =
      let opened = new_mux host dialer (default_options build) basic_config order w in
      let s = fresh_run t opened.1 in
      ap (λ (r : Option (RunError E) × W). r.0) (list_files-ok t opened made)
      ∙ called-error t _ _
          (elim (new_mux-call_tool host dialer (default_options build) basic_config order w t []
            (bytes "files") (bytes "list_directory") path_args s new made) [
              | inl (known, refused) ↦ refused.0
              | inr (inl (sc, e, there, same, kept, at, config, served)) ↦
                  absurd (ground (arith, kept, lost))
              | inr (inr (other, refused)) ↦ absurd (ground (arith, other, among))
            ])

  -- On the multiplexer of the policy program no call of a destructive tool is sent.
  pub policy_main-Unsent :
      (new : Text → E) (w : W) (t : Started W E) (ctx : Context) (server tool args : Text)
      (s : Run W E) (entry : ServerEntry) (info : ToolInfo)
      → (single (with_before_call (block_destructive new)) w).0 ≡ ok t
      → lookup server t.mux.servers ≡ some entry
      → find_tool tool entry.tools ≡ some info
      → info.destructive ≡ true
      → (tally (call_tool host t.mux ctx server tool args s).1.trace).sends ≡ (tally s.trace).sends
  unfolding apply_settings default_options
  policy_main-Unsent new w t ctx server tool args s entry info made at has bad =
      block_destructive-Unsent new host t.mux ctx server tool args s entry info [] []
        (ap (λ (o : Options W E). o.before_call)
          (new_mux-opts host dialer _ single_config single_config.servers w t made))
        at has bad
