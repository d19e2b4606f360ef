-- ===== src/Caller/Arguments.antt =====
-- When a call sends a request, and with which arguments.
use mcp_multiplexer.Base.{
  ℕ, ◌≡◌, refl, sym, subst, Text, text_eq, bytes, true, Option, none, some, List, [], ◌∷◌, is_empty,
  lookup, ◌⊎◌, inl, inr, if_cases, Bool-cases, Option-cases,
}
use mcp_multiplexer.Json.{GoMap, contents}
use mcp_multiplexer.Context.{Context}
use mcp_multiplexer.Tool.{ToolInfo, zero_info}
use mcp_multiplexer.Host.{Host, Answer, ok, err, unmarshal_map, debug}
use mcp_multiplexer.Validate.{find_invalid_args, validate_schema}
use mcp_multiplexer.Options.{Options}
use mcp_multiplexer.Config.{ServerConfig}
use mcp_multiplexer.Mux.{Mux, ServerEntry, ServerState, connected, down}
use mcp_multiplexer.Caller.Run.{Run, log}
use mcp_multiplexer.Caller.Dispatch.{Outcome, Target}
use mcp_multiplexer.Caller.Call.{
  find_tool, schema_checked, check_schema, transform_args, final_args, placeholders_checked,
  unmarshalled, prepare, with_state, with_tool, with_server, call_tool,
}
use mcp_multiplexer.Caller.Sent.{sends, SendsOne, before_loop-SendsOne, reject-Quiet}

-- What `arguments` may be for the text `args`: nothing for an empty text; otherwise the object that
-- it decodes to, free of placeholders, after all transformers and the field map.
abbrev pub Prepared :
    {W E : Type 0} → Host W E → Options W E → ServerConfig → Text → Option GoMap → Type 0
Prepared host opts config args arguments =
    ((is_empty args ≡ true) × (arguments ≡ none))
    ⊎ ((raw : GoMap) × (unmarshal_map host args ≡ ok raw)
        × (find_invalid_args host.unicode (contents raw) ≡ [])
        × (arguments ≡ some (transform_args host opts config raw)))

module _ {W E : Type 0} (host : Host W E) (opts : Options W E) where
  schema_checked-SendsOne :
      (errs : List Text) (ctx : Context) (t : Target) (s : Run W E)
      → SendsOne host opts t s (schema_checked host opts errs ctx t s)
  unfolding schema_checked
  schema_checked-SendsOne [] ctx t s = before_loop-SendsOne host opts opts.before_call t ctx s
  schema_checked-SendsOne (x ∷ xs) ctx t s =
      inl (reject-Quiet host opts ctx t.server t.tool t.info t.args t.start _ _ s)

  check_schema-SendsOne :
      (ctx : Context) (t : Target) (s : Run W E)
      → SendsOne host opts t s (check_schema host opts ctx t s)
  unfolding check_schema
  check_schema-SendsOne ctx t s =
      if_cases (λ out. SendsOne host opts t s out) opts.schema_validation _ _
        (schema_checked-SendsOne (validate_schema host.check_schema t.info.input_schema t.args) ctx
          t s)
        (before_loop-SendsOne host opts opts.before_call t ctx s)

  -- Nothing was sent since `s`, or one request with arguments prepared from `args`.
  abbrev SendsPrepared : ServerConfig → Text → Text → Text → Run W E → Outcome host opts → Type 0
  SendsPrepared config server tool args s out =
      (sends out.1.trace ≡ sends s.trace)
      ⊎ ((arguments : Option GoMap) × Prepared host opts config args arguments
          × (sends out.1.trace ≡ (server, tool, arguments) ∷ sends s.trace))

  Prepared-one :
      (config : ServerConfig) (args : Text) (t : Target) (s : Run W E) (out : Outcome host opts)
      → Prepared host opts config args t.arguments
      → SendsOne host opts t s out
      → SendsPrepared config t.server t.tool args s out
  Prepared-one config args t s out p (inl h) = inl h
  Prepared-one config args t s out p (inr h) = inr (t.arguments, p, h)

  placeholders_checked-SendsPrepared :
      (bad : List Text) (config : ServerConfig) (raw : GoMap) (ctx : Context) (t : Target)
      (s : Run W E)
      → unmarshal_map host t.args ≡ ok raw
      → find_invalid_args host.unicode (contents raw) ≡ bad
      → SendsPrepared config t.server t.tool t.args s
          (placeholders_checked host opts bad config raw ctx t s)
  unfolding placeholders_checked log sends
  placeholders_checked-SendsPrepared (x ∷ xs) config raw ctx t s decoded clean =
      inl (reject-Quiet host opts ctx t.server t.tool t.info t.args t.start _ _ s)
  placeholders_checked-SendsPrepared [] config raw ctx t s decoded clean =
      let transformed = transform_args host opts config raw in
      let t' : Target = record t {
        arguments = some transformed;
        args = final_args host opts transformed t.args;
      } in
      let s' = log host opts debug (bytes "mcpx: call") s in
      Prepared-one config t.args t' s (check_schema host opts ctx t' s')
        (inr (raw, decoded, clean, refl)) (check_schema-SendsOne ctx t' s')

  unmarshalled-SendsPrepared :
      (decoded : Answer E GoMap) (config : ServerConfig) (ctx : Context) (t : Target) (s : Run W E)
      → unmarshal_map host t.args ≡ decoded
      → SendsPrepared config t.server t.tool t.args s
          (unmarshalled host opts decoded config ctx t s)
  unfolding unmarshalled
  unmarshalled-SendsPrepared (err e) config ctx t s h =
      inl (reject-Quiet host opts ctx t.server t.tool t.info t.args t.start _ _ s)
  unmarshalled-SendsPrepared (ok raw) config ctx t s h =
      placeholders_checked-SendsPrepared (find_invalid_args host.unicode (contents raw)) config raw
        ctx t s h refl

  prepare-SendsPrepared :
      (config : ServerConfig) (ctx : Context) (t : Target) (s : Run W E)
      → t.arguments ≡ none
      → SendsPrepared config t.server t.tool t.args s (prepare host opts config ctx t s)
  unfolding prepare
  prepare-SendsPrepared config ctx t s none_yet = elim (Bool-cases (is_empty t.args)) [
    | inl e ↦
        let same : prepare host opts config ctx t s ≡ check_schema host opts ctx t s = rw e refl in
        subst (SendsPrepared config t.server t.tool t.args s) (sym same) (
          Prepared-one config t.args t s (check_schema host opts ctx t s) (inl (e, none_yet))
            (check_schema-SendsOne ctx t s))
    | inr e ↦
        let decoded = unmarshal_map host t.args in
        let same : prepare host opts config ctx t s
            ≡ unmarshalled host opts decoded config ctx t s =
          rw e refl in
        subst (SendsPrepared config t.server t.tool t.args s) (sym same)
          (unmarshalled-SendsPrepared decoded config ctx t s refl)
  ]

  -- The server is connected and the request carries prepared arguments, if there is one.
  abbrev SendsWith : ServerEntry → Text → Text → Text → Run W E → Outcome host opts → Type 0
  SendsWith entry server tool args s out =
      (sends out.1.trace ≡ sends s.trace)
      ⊎ ((arguments : Option GoMap) × (entry.state ≡ connected)
          × Prepared host opts entry.config args arguments
          × (sends out.1.trace ≡ (server, tool, arguments) ∷ sends s.trace))

  with_state-SendsWith :
      (state : ServerState) (info : ToolInfo) (entry : ServerEntry) (ctx : Context)
      (server tool args : Text) (start : ℕ) (s : Run W E)
      → entry.state ≡ state
      → SendsWith entry server tool args s
          (with_state host opts state info entry ctx server tool args start s)
  unfolding with_state
  with_state-SendsWith down info entry ctx server tool args start s at =
      inl (reject-Quiet host opts ctx server tool info args start _ _ s)
  with_state-SendsWith connected info entry ctx server tool args start s at =
      elim (prepare-SendsPrepared entry.config ctx _ s refl) [
        | inl h ↦ inl h
        | inr (arguments, p, h) ↦ inr (arguments, at, p, h)
      ]

-- A call sends nothing, or exactly one request: then the server is registered and connected, it has
-- the tool, and the arguments that go out are none for an empty text, or else the object that the
-- text decodes to, free of placeholders, after the server's transformers and its field map.
pub call_tool-sends :
    {W E : Type 0} (host : Host W E) (mx : Mux W E) (ctx : Context) (server tool args : Text)
    (s : Run W E)
    → (sends (call_tool host mx ctx server tool args s).1.trace ≡ sends s.trace)
      ⊎ ((entry : ServerEntry) × (info : ToolInfo) × (arguments : Option GoMap) × (lookup server
              mx.servers
            ≡ some entry)
          × (entry.state ≡ connected)
          × (find_tool tool entry.tools ≡ some info)
          × Prepared host mx.opts entry.config args arguments
          × (sends (call_tool host mx ctx server tool args s).1.trace
              ≡ (server, tool, arguments) ∷ sends s.trace))
unfolding call_tool with_server with_tool
call_tool-sends host mx ctx server tool args s = elim (Option-cases (lookup server mx.servers)) [
  | inl gone ↦
      inl
        (rw (gone, with_server) (reject-Quiet host mx.opts ctx server tool zero_info args _ _ _ _))
  | inr (entry, at) ↦ elim (Option-cases (find_tool tool entry.tools)) [
    | inl lacks ↦ inl (
        rw (at, with_server, lacks, with_tool)
          (reject-Quiet host mx.opts ctx server tool zero_info args _ _ _ _))
    | inr (info, has) ↦
        elim (with_state-SendsWith host mx.opts entry.state info entry ctx server tool args
          (host.now s.world).0 (record s { world = (host.now s.world).1 }) refl) [
            | inl h ↦ inl (rw (at, with_server, has, with_tool) h)
            | inr (arguments, live, p, h) ↦
                inr
                  (entry, info, arguments, at, live, has, p, rw (at, with_server, has, with_tool) h)
          ]
  ]
]
