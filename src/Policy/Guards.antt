-- ===== src/Policy/Guards.antt =====
-- A BeforeCall hook that always aborts a tool keeps its calls from the server.
use mcp_multiplexer.Base.{
  ℕ, ◌≡◌, refl, ap, sym, subst, ◌∙◌, Text, bytes, true, some, List, [], ◌∷◌, ◌++◌, lookup, is_empty,
  text_eq, ◌⊎◌, inl, inr, arith, if_cases, Bool-cases, Option-cases,
}
use mcp_multiplexer.Json.{GoMap, contents}
use mcp_multiplexer.Context.{Context}
use mcp_multiplexer.Tool.{ToolInfo}
use mcp_multiplexer.Errors.{Failure}
use mcp_multiplexer.Host.{Host, Answer, ok, err, unmarshal_map, debug}
use mcp_multiplexer.Validate.{validate_schema, find_invalid_args}
use mcp_multiplexer.Options.{Options, BeforeCallHook, RejectReason}
use mcp_multiplexer.Config.{ServerConfig}
use mcp_multiplexer.Mux.{Mux, ServerEntry, ServerState, connected, down}
use mcp_multiplexer.Caller.Run.{Run, log}
use mcp_multiplexer.Caller.Dispatch.{Outcome, Target, or_context, before_loop}
use mcp_multiplexer.Caller.Call.{
  find_tool, reject, schema_checked, check_schema, transform_args, final_args, placeholders_checked,
  unmarshalled, prepare, with_state, with_tool, with_server, call_tool,
}
use mcp_multiplexer.Caller.Tally.{
  tally, tally-log, tally-record, tally-run_after_call, tally-fire_rejected, trace-since,
}
use mcp_multiplexer.Caller.Accounting.{tally-after_now}
use mcp_multiplexer.Policy.{deny_destructive, destructive_error}

-- The hook aborts every call of the tool.
abbrev pub Aborts : {W E : Type 0} → BeforeCallHook W E → ToolInfo → Type 0
Aborts {W} {E} hook info =
    (ctx : Context) (server tool args : Text) (w : W)
    → (x : E) × ((hook ctx server tool info args w).0.2 ≡ some x)

-- One of the hooks does.
abbrev pub IsGuarded : {W E : Type 0} → List (BeforeCallHook W E) → ToolInfo → Type 0
IsGuarded [] info = ⊥
IsGuarded (hook ∷ hooks) info = Aborts hook info ⊎ IsGuarded hooks info

module _ {W E : Type 0} (host : Host W E) (opts : Options W E) where
  -- No request was added to the trace of `s`.
  abbrev pub Unsent : Run W E → Outcome host opts → Type 0
  Unsent s out = (tally out.1.trace).sends ≡ (tally s.trace).sends

  before_loop-Unsent :
      (hooks : List (BeforeCallHook W E)) (t : Target) (ctx : Context) (s : Run W E)
      → IsGuarded hooks t.info
      → Unsent s (before_loop host opts hooks t ctx s)
  unfolding before_loop
  before_loop-Unsent [] t ctx s g = absurd g
  before_loop-Unsent (hook ∷ hooks) t ctx s g =
      let out = hook ctx t.server t.tool t.info t.args s.world in
      elim (Option-cases out.0.2) [
        | inr (x, e) ↦ rw (e, before_loop) (rw tally-after_now (rw tally-fire_rejected refl))
        | inl e ↦ elim (Option-cases out.0.1) [
          | inr (result, e') ↦ rw (e, before_loop, e') (rw tally-after_now refl)
          | inl e' ↦
              let rest : IsGuarded hooks t.info = elim g [
                | inl aborts ↦
                    let (x, f) = aborts ctx t.server t.tool t.args s.world in
                    absurd (ground (arith, e, f))
                | inr rest ↦ rest
              ] in
              rw (e, before_loop, e')
                (before_loop-Unsent hooks t (or_context host opts out.0.0 ctx)
                  (record s { world = out.1 }) rest)
        ]
      ]

  reject-Unsent :
      (ctx : Context) (server tool : Text) (info : ToolInfo) (args : Text) (start : ℕ)
      (reason : RejectReason) (e : Failure E) (s : Run W E)
      → Unsent s (reject host opts ctx server tool info args start reason e s)
  unfolding reject
  reject-Unsent ctx server tool info args start reason e s =
      rw tally-record
        (rw trace-since (rw tally-run_after_call (rw trace-since (rw tally-fire_rejected refl))))

  schema_checked-Unsent :
      (errs : List Text) (ctx : Context) (t : Target) (s : Run W E)
      → IsGuarded opts.before_call t.info
      → Unsent s (schema_checked host opts errs ctx t s)
  unfolding schema_checked
  schema_checked-Unsent [] ctx t s g = before_loop-Unsent opts.before_call t ctx s g
  schema_checked-Unsent (x ∷ xs) ctx t s g =
      reject-Unsent ctx t.server t.tool t.info t.args t.start _ _ s

  module _ (info : ToolInfo) (g : IsGuarded opts.before_call info) where
    check_schema-Unsent :
        (ctx : Context) (t : Target) (s : Run W E)
        → t.info ≡ info
        → Unsent s (check_schema host opts ctx t s)
    unfolding check_schema
    check_schema-Unsent ctx t s same =
        let guarded = subst (IsGuarded opts.before_call) (sym same) g in
        if_cases (λ out. Unsent s out) opts.schema_validation _ _
          (schema_checked-Unsent (validate_schema host.check_schema t.info.input_schema t.args) ctx
            t s guarded)
          (before_loop-Unsent opts.before_call t ctx s guarded)

    placeholders_checked-Unsent :
        (bad : List Text) (config : ServerConfig) (raw : GoMap) (ctx : Context) (t : Target)
        (s : Run W E)
        → t.info ≡ info
        → Unsent s (placeholders_checked host opts bad config raw ctx t s)
    unfolding placeholders_checked
    placeholders_checked-Unsent (x ∷ xs) config raw ctx t s same =
        reject-Unsent ctx t.server t.tool t.info t.args t.start _ _ s
    placeholders_checked-Unsent [] config raw ctx t s same =
        let transformed = transform_args host opts config raw in
        let s' = log host opts debug (bytes "mcpx: call") s in
        let t' : Target = record t {
          arguments = some transformed;
          args = final_args host opts transformed t.args;
        } in
        check_schema-Unsent ctx t' s' same
        ∙ ap (λ y. y.sends) (tally-log host opts debug (bytes "mcpx: call") s)

    unmarshalled-Unsent :
        (raw : Answer E GoMap) (config : ServerConfig) (ctx : Context) (t : Target) (s : Run W E)
        → t.info ≡ info
        → Unsent s (unmarshalled host opts raw config ctx t s)
    unfolding unmarshalled
    unmarshalled-Unsent (err e) config ctx t s same =
        reject-Unsent ctx t.server t.tool t.info t.args t.start _ _ s
    unmarshalled-Unsent (ok raw) config ctx t s same =
        placeholders_checked-Unsent (find_invalid_args host.unicode (contents raw)) config raw ctx t
          s same

    prepare-Unsent :
        (config : ServerConfig) (ctx : Context) (t : Target) (s : Run W E)
        → t.info ≡ info
        → Unsent s (prepare host opts config ctx t s)
    unfolding prepare
    prepare-Unsent config ctx t s same = elim (Bool-cases (is_empty t.args)) [
      | inl e ↦ rw e (check_schema-Unsent ctx t s same)
      | inr e ↦ rw e (unmarshalled-Unsent (unmarshal_map host t.args) config ctx t s same)
    ]

    with_state-Unsent :
        (state : ServerState) (entry : ServerEntry) (ctx : Context) (server tool args : Text)
        (start : ℕ) (s : Run W E)
        → Unsent s (with_state host opts state info entry ctx server tool args start s)
    unfolding with_state
    with_state-Unsent down entry ctx server tool args start s =
        reject-Unsent ctx server tool info args start _ _ s
    with_state-Unsent connected entry ctx server tool args start s =
        prepare-Unsent entry.config ctx _ s refl

-- If one of the BeforeCall hooks aborts every call of the tool that the server has under the name, a
-- call of it sends no request, whatever the arguments and the other hooks.
pub call_tool-Unsent :
    {W E : Type 0} (host : Host W E) (mx : Mux W E) (ctx : Context) (server tool args : Text)
    (s : Run W E) (entry : ServerEntry) (info : ToolInfo)
    → lookup server mx.servers ≡ some entry
    → find_tool tool entry.tools ≡ some info
    → IsGuarded mx.opts.before_call info
    → (tally (call_tool host mx ctx server tool args s).1.trace).sends ≡ (tally s.trace).sends
unfolding call_tool with_server with_tool
call_tool-Unsent host mx ctx server tool args s entry info at has g =
    rw (at, with_server, has, with_tool)
      (with_state-Unsent host mx.opts info g entry.state entry ctx server tool args _ _)

pub append-IsGuarded :
    {W E : Type 0} (hook : BeforeCallHook W E) (info : ToolInfo)
    (before hooks : List (BeforeCallHook W E))
    → Aborts hook info
    → IsGuarded (before ++ hook ∷ hooks) info
append-IsGuarded hook info [] hooks h = inl h
append-IsGuarded hook info (x ∷ before) hooks h = inr (append-IsGuarded hook info before hooks h)

-- With DenyDestructive anywhere in the BeforeCall chain, no call of a destructive tool is sent.
pub deny_destructive-Unsent :
    {W E : Type 0} (errorf : Text → E) (host : Host W E) (mx : Mux W E) (ctx : Context)
    (server tool args : Text) (s : Run W E) (entry : ServerEntry) (info : ToolInfo)
    (before hooks : List (BeforeCallHook W E))
    → mx.opts.before_call ≡ before ++ deny_destructive errorf ∷ hooks
    → lookup server mx.servers ≡ some entry
    → find_tool tool entry.tools ≡ some info
    → info.destructive ≡ true
    → (tally (call_tool host mx ctx server tool args s).1.trace).sends ≡ (tally s.trace).sends
unfolding deny_destructive
deny_destructive-Unsent errorf host mx ctx server tool args s entry info before hooks chain at has
      bad =
    call_tool-Unsent host mx ctx server tool args s entry info at has (
      subst (λ l. IsGuarded l info) (sym chain)
        (append-IsGuarded (deny_destructive errorf) info before hooks
          (λ ctx server tool args w. (destructive_error errorf info.name, rw bad refl))))
