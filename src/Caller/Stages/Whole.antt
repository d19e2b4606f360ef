-- ===== src/Caller/Stages/Whole.antt =====
-- The whole of CallTool: what comes before its BeforeCall chain settles where its steps start.
use mcp_multiplexer.Base.{
  ℕ, ◌+◌, ◌≤◌, ◌≡◌, refl, sym, ap, ◌∙◌, Text, text_eq, Option, none, some, List, length, lookup,
}
use mcp_multiplexer.Context.{Context}
use mcp_multiplexer.Tool.{ToolInfo}
use mcp_multiplexer.Errors.{Failure}
use mcp_multiplexer.Host.{Host, err}
use mcp_multiplexer.Mux.{Mux, ServerEntry, ServerState, connected, down}
use mcp_multiplexer.Mux.Queries.{server_names}
use mcp_multiplexer.Caller.Run.{Run}
use mcp_multiplexer.Caller.Dispatch.{Outcome, Target}
use mcp_multiplexer.Caller.Call.{
  find_tool, session_of, with_state, with_tool, with_server, call_tool,
}
use mcp_multiplexer.Caller.Sent.{sends}
use mcp_multiplexer.Caller.Rejections.{
  Agrees, refusal, with_state-Agrees, with_tool-Agrees, with_server-Agrees, state_refusal,
  tool_refusal, server_refusal,
}
use mcp_multiplexer.Caller.Stages.{hooking, drive}
use mcp_multiplexer.Caller.Stages.Ends.{finished}
use mcp_multiplexer.Caller.Stages.Alone.{alone, drive-before_loop}
use mcp_multiplexer.Caller.Stages.Entered.{settled_args, Enters, prepare-Enters}

-- Unless the call is refused, its server is registered and has the tool, and the steps that start at
-- the BeforeCall chain, for this server and tool, the transformed arguments and the session of the
-- entry, with the cache and what was sent as they were, end with what the call returns.
abbrev pub Runs :
    {W E : Type 0} (host : Host W E) (mx : Mux W E)
    → Context
    → Text
    → Text
    → Text
    → Run W E
    → ℕ
    → Option (Failure E)
    → Outcome host mx.opts
    → Type 0
Runs host mx ctx server tool args s n (some e) out = out.0 ≡ err e
Runs {W} host mx ctx server tool args s n none out =
    (entry : ServerEntry) × (t : Target) × (s' : Run W _) × (lookup server mx.servers ≡ some entry)
    × (find_tool tool entry.tools ≡ some t.info)
    × (t.server ≡ server)
    × (t.tool ≡ tool)
    × (t.session ≡ session_of host mx.opts entry.session)
    × (t.args ≡ settled_args host mx.opts entry.config args)
    × (s'.builtin_cache ≡ s.builtin_cache)
    × (sends s'.trace ≡ sends s.trace)
    × (finished host mx.opts
          (drive host mx.opts (alone host mx.opts n) (hooking mx.opts.before_call t ctx) s')
        ≡ some out)

module _ {W E : Type 0} (host : Host W E) (mx : Mux W E) (ctx : Context) (server tool : Text)
    (n : ℕ) (enough : length mx.opts.before_call + (length mx.opts.result_transform + 8) ≤ n) where
  entered-Runs :
      (e : Option (Failure E)) (entry : ServerEntry) (t : Target) (s s0 : Run W E) (args : Text)
      (out : Outcome host mx.opts)
      → lookup server mx.servers ≡ some entry
      → find_tool tool entry.tools ≡ some t.info
      → t.server ≡ server
      → t.tool ≡ tool
      → t.session ≡ session_of host mx.opts entry.session
      → s.builtin_cache ≡ s0.builtin_cache
      → sends s.trace ≡ sends s0.trace
      → Agrees e out.0
      → Enters host mx.opts (settled_args host mx.opts entry.config args) e ctx t s out
      → Runs host mx ctx server tool args s0 n e out
  entered-Runs (some x) entry t s s0 args out reg has sv tl ss same quiet a h = a
  entered-Runs none entry t s s0 args out reg has sv tl ss same quiet a
        (t', s', e, final, kept, sent, at) =
      (
        entry,
        t',
        s',
        reg,
        has ∙ sym (ap (λ (t : Target). some t.info) e),
        ap (λ (t : Target). t.server) e ∙ sv,
        ap (λ (t : Target). t.tool) e ∙ tl,
        ap (λ (t : Target). t.session) e ∙ ss,
        final,
        kept ∙ same,
        sent ∙ quiet,
        drive-before_loop host mx.opts n t' ctx s' enough ∙ ap some (sym at),
      )

  with_state-Runs :
      (state : ServerState) (info : ToolInfo) (entry : ServerEntry) (args : Text) (start : ℕ)
      (s s0 : Run W E)
      → lookup server mx.servers ≡ some entry
      → find_tool tool entry.tools ≡ some info
      → s.builtin_cache ≡ s0.builtin_cache
      → sends s.trace ≡ sends s0.trace
      → Runs host mx ctx server tool args s0 n
          (state_refusal host mx.opts state entry.config info server args)
          (with_state host mx.opts state info entry ctx server tool args start s)
  unfolding with_state
  with_state-Runs down info entry args start s s0 reg has same quiet =
      with_state-Agrees host mx.opts down info entry ctx server tool args start s
  with_state-Runs connected info entry args start s s0 reg has same quiet =
      entered-Runs _ entry _ s s0 args _ reg has refl refl refl same quiet
        (with_state-Agrees host mx.opts connected info entry ctx server tool args start s)
        (prepare-Enters host mx.opts entry.config ctx _ s)

  with_tool-Runs :
      (found : Option ToolInfo) (entry : ServerEntry) (args : Text) (start : ℕ) (s s0 : Run W E)
      → lookup server mx.servers ≡ some entry
      → find_tool tool entry.tools ≡ found
      → s.builtin_cache ≡ s0.builtin_cache
      → sends s.trace ≡ sends s0.trace
      → Runs host mx ctx server tool args s0 n
          (tool_refusal host mx.opts found entry server tool args)
          (with_tool host mx.opts found entry ctx server tool args start s)
  unfolding with_tool
  with_tool-Runs none entry args start s s0 reg has same quiet =
      with_tool-Agrees host mx.opts none entry ctx server tool args start s
  with_tool-Runs (some info) entry args start s s0 reg has same quiet =
      with_state-Runs entry.state info entry args start s s0 reg has same quiet

  with_server-Runs :
      (found : Option ServerEntry) (available : List Text) (args : Text) (start : ℕ)
      (s s0 : Run W E)
      → lookup server mx.servers ≡ found
      → s.builtin_cache ≡ s0.builtin_cache
      → sends s.trace ≡ sends s0.trace
      → Runs host mx ctx server tool args s0 n
          (server_refusal host mx.opts found available server tool args)
          (with_server host mx.opts found available ctx server tool args start s)
  unfolding with_server
  with_server-Runs none available args start s s0 reg same quiet =
      with_server-Agrees host mx.opts none available ctx server tool args start s
  with_server-Runs (some entry) available args start s s0 reg same quiet =
      with_tool-Runs (find_tool tool entry.tools) entry args start s s0 reg refl same quiet

  -- A call that is refused before the hooks returns the error of the first check that fails. Every
  -- other call is a run of the steps, from the BeforeCall chain on, in which no other goroutine
  -- comes in between: its server is registered and has the tool, the steps are for this server and
  -- tool, with the arguments transformed under the server's configuration, on the session of the
  -- entry, and start with the cache as it was and nothing sent yet; they end, and with the answer and the
  -- state of CallTool.
  pub call_tool-Runs :
      (args : Text) (s : Run W E)
      → Runs host mx ctx server tool args s n
          (refusal host mx server tool args)
          (call_tool host mx ctx server tool args s)
  unfolding call_tool
  call_tool-Runs args s =
      with_server-Runs (lookup server mx.servers) (server_names mx.servers) args _ _ s refl refl
        refl
