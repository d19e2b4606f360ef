-- ===== src/New/Connect/Calls.antt =====
-- New of multiplexer.go, and then CallTool of caller.go on the multiplexer that it gives.
use mcp_multiplexer.Base.{
  Text, text_eq, text_beq_iff, sym, refl, ◌∙◌, ◌==◌, ◌≡◌, subst, ap, ◌⊎◌, inl, inr, true, false,
  Option, none, some, List, [], ◌∷◌, lookup, contains, All, Bool-cases, Option-cases, arith,
}
use mcp_multiplexer.Config.{ServerConfig, MultiplexerConfig}
use mcp_multiplexer.Context.{Context}
use mcp_multiplexer.Tool.{ToolInfo}
use mcp_multiplexer.Errors.{Failure, server_not_found, tool_not_found}
use mcp_multiplexer.Host.{Host, ok, err}
use mcp_multiplexer.Options.{Options}
use mcp_multiplexer.Mux.{Mux, ServerEntry, ServerState, connected}
use mcp_multiplexer.Mux.Queries.{server_names}
use mcp_multiplexer.New.{effective_config}
use mcp_multiplexer.New.Laws.{IsNew}
use mcp_multiplexer.New.Connect.{Dialer, Started, new_mux}
use mcp_multiplexer.New.Connect.Registration.{RegisteredAs, Registered, names, new_mux-Registered}
use mcp_multiplexer.Caller.Run.{Run}
use mcp_multiplexer.Caller.Call.{find_tool, call_tool}
use mcp_multiplexer.Caller.Dispatch.{Outcome}
use mcp_multiplexer.Caller.Sent.{sends}
use mcp_multiplexer.Caller.Arguments.{call_tool-sends}
use mcp_multiplexer.Caller.Rejections.{
  Agrees, argument_refusal, state_refusal, tool_refusal, server_refusal, call_tool-Agrees,
}

-- The element stands in the list.
abbrev pub Among : {A : Type 0} → A → List A → Type 0
Among x [] = ⊥
Among x (y ∷ ys) = (y ≡ x) ⊎ Among x ys

abbrev pub tool_names : List ToolInfo → List Text
tool_names [] = []
tool_names (t ∷ tools) = t.name ∷ tool_names tools

find_tool-none :
    (tool : Text) (tools : List ToolInfo)
    → find_tool tool tools ≡ none
    → contains tool (tool_names tools) ≡ false
unfolding find_tool
find_tool-none tool [] h = refl
find_tool-none tool (t ∷ tools) h = elim (Bool-cases (t.name == tool)) [
  | inl e ↦ absurd (ground (arith, h, e))
  | inr e ↦ ground (arith, e, find_tool-none tool tools (ground (arith, h, e)))
]

find_tool-Among :
    (tool : Text) (tools : List ToolInfo) (info : ToolInfo)
    → find_tool tool tools ≡ some info
    → Among info tools × (info.name ≡ tool)
unfolding find_tool
find_tool-Among tool [] info h = absurd (ground (arith, h))
find_tool-Among tool (t ∷ tools) info h = elim (Bool-cases (t.name == tool)) [
  | inl e ↦
      let same : t ≡ info = ground (arith, h, e) in
      (inl same, ap (λ (x : ToolInfo). x.name) (sym same) ∙ (text_beq_iff t.name tool).0 e)
  | inr e ↦
      let (there, named) = find_tool-Among tool tools info (ground (arith, h, e)) in
      (inr there, named)
]

-- The server of a name is among those that have the property.
All-names :
    {P : ServerConfig → Type 0} (name : Text) (order : List ServerConfig)
    → contains name (names order) ≡ true
    → All P order
    → (sc : ServerConfig) × Among sc order × (sc.name ≡ name) × P sc
All-names name [] h k = absurd (ground (arith, h))
All-names {P = P} name (sc ∷ order) h (here, rest) = elim (Bool-cases (sc.name == name)) [
  | inl e ↦ (sc, inl refl, (text_beq_iff sc.name name).0 e, here)
  | inr e ↦
      let (found, there, same, p) = All-names {P = P} name order (ground (arith, h, e)) rest in
      (found, inr there, same, p)
]

module _ {W E : Type 0} (host : Host W E) (mx : Mux W E) (ctx : Context) (name tool args : Text)
    (s : Run W E) where
  abbrev out : Outcome host mx.opts
  out = call_tool host mx ctx name tool args s

  -- The call returns the error, and nothing is sent.
  abbrev pub Refused : Failure E → Type 0
  Refused e = (out.0 ≡ err e) × (sends out.1.trace ≡ sends s.trace)

  -- A call of a server that is connected: the error says that it has no such tool, or what is wrong
  -- with the arguments; otherwise the call was accepted.
  abbrev pub Served : ServerEntry → Type 0
  Served entry =
      ((contains tool (tool_names entry.tools) ≡ false) × Refused (tool_not_found tool name))
      ⊎ ((info : ToolInfo) × Among info entry.tools
          × (info.name ≡ tool)
          × Agrees (argument_refusal host mx.opts entry.config info args) out.0)

  -- What the call returns, where the server is registered under the entry, or is not.
  agreed :
      (found : Option ServerEntry)
      → lookup name mx.servers ≡ found
      → Agrees (server_refusal host mx.opts found (server_names mx.servers) name tool args) out.0
  agreed found at =
      subst
        (λ o. Agrees (server_refusal host mx.opts o (server_names mx.servers) name tool args) out.0)
        at (call_tool-Agrees host mx ctx name tool args s)

  unregistered :
      lookup name mx.servers ≡ none → Refused (server_not_found name (server_names mx.servers))
  unregistered gone = (
    agreed none gone,
    elim (call_tool-sends host mx ctx name tool args s) [
      | inl quiet ↦ quiet
      | inr (entry, info, arguments, at, live, has, p, more) ↦ absurd (ground (arith, gone, at))
    ],
  )

  lacking :
      (entry : ServerEntry)
      → lookup name mx.servers ≡ some entry
      → find_tool tool entry.tools ≡ none
      → Refused (tool_not_found tool name)
  lacking entry at lacks = (
    subst (λ o. Agrees (tool_refusal host mx.opts o entry name tool args) out.0) lacks
        (agreed (some entry) at),
    elim (call_tool-sends host mx ctx name tool args s) [
      | inl quiet ↦ quiet
      | inr (other, info, arguments, found, live, has, p, more) ↦
          absurd (ground (arith, lacks, has, at, found))
    ],
  )

  serving :
      (entry : ServerEntry)
      → lookup name mx.servers ≡ some entry
      → entry.state ≡ connected
      → Served entry
  serving entry at live = elim (Option-cases (find_tool tool entry.tools)) [
    | inl lacks ↦ inl (find_tool-none tool entry.tools lacks, lacking entry at lacks)
    | inr (info, has) ↦ inr (
      info,
      (find_tool-Among tool entry.tools info has).0,
      (find_tool-Among tool entry.tools info has).1,
      subst
          (λ (x : ServerState).
            Agrees (state_refusal host mx.opts x entry.config info name args) out.0)
          live
          (subst (λ o. Agrees (tool_refusal host mx.opts o entry name tool args) out.0) has
            (agreed (some entry) at)),
    )
  ]

-- The call of a server that is registered: for the stub of one that could not be connected, a
-- reconnection is started, and the call says that there is no such tool.
registered-call :
    {W E : Type 0} (host : Host W E) (mx : Mux W E) (ctx : Context) (name tool args : Text)
    (s : Run W E) (config : ServerConfig) (failed : List Text)
    → RegisteredAs name config mx.servers failed
    → ((contains name failed ≡ true)
        × Refused host mx ctx name tool args s (tool_not_found tool name))
      ⊎ ((entry : ServerEntry) × (contains name failed ≡ false)
          × (lookup name mx.servers ≡ some entry)
          × (entry.config ≡ config)
          × Served host mx ctx name tool args s entry)
unfolding find_tool
registered-call host mx ctx name tool args s config failed (entry, at, same, inl (up, started)) =
    inr (entry, started, at, same, serving host mx ctx name tool args s entry at up.0)
registered-call host mx ctx name tool args s config failed (entry, at, same, inr (stub, started)) =
    inl (
      started,
      lacking host mx ctx name tool args s entry at
          (ap (λ (e : ServerEntry). find_tool tool e.tools) stub),
    )

pub new_mux-call_tool :
    {W E : Type 0} (host : Host W E) (dialer : Dialer W E) (opts : Options W E)
    (cfg : MultiplexerConfig) (order : List ServerConfig) (w : W) (t : Started W E) (ctx : Context)
    (name tool args : Text) (s : Run W E)
    → IsNew [] order
    → (new_mux host dialer opts cfg order w).0 ≡ ok t
    → ((contains name t.reconnects ≡ true)
        × Refused host t.mux ctx name tool args s (tool_not_found tool name))
      ⊎ ((sc : ServerConfig) × (entry : ServerEntry) × Among sc order
          × (sc.name ≡ name)
          × (contains name t.reconnects ≡ false)
          × (lookup name t.mux.servers ≡ some entry)
          × (entry.config ≡ effective_config cfg sc)
          × Served host t.mux ctx name tool args s entry)
      ⊎ ((contains name (names order) ≡ false)
          × Refused host t.mux ctx name tool args s
              (server_not_found name (server_names t.mux.servers)))
new_mux-call_tool host dialer opts cfg order w t ctx name tool args s new made =
    let (all, absent) = new_mux-Registered host dialer opts cfg order w t name new made in
    elim (Bool-cases (contains name (names order))) [
      | inl known ↦
          let (sc, among, same, here) =
            All-names {P = Registered cfg t.mux.servers t.reconnects} name order known all in
          elim (registered-call host t.mux ctx name tool args s (effective_config cfg sc)
            t.reconnects
            (subst (λ n. RegisteredAs n (effective_config cfg sc) t.mux.servers t.reconnects) same
              here)) [
                | inl h ↦ inl h
                | inr (entry, started, at, config, h) ↦
                    inr (inl (sc, entry, among, same, started, at, config, h))
              ]
      | inr other ↦ elim absent [
        | inl among ↦ absurd (ground (arith, other, among))
        | inr gone ↦ inr (inr (other, unregistered host t.mux ctx name tool args s gone))
      ]
    ]
