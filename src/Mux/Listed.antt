-- ===== src/Mux/Listed.antt =====
-- ToolsForServers against a reference that compares pairs of server and tool.
use mcp_multiplexer.Base.{
  separator_inj, nat_eq, Text, text_eq, text_beq_iff, ◌==◌, ==_refl, ◌≡◌, refl, sym, ap, ◌∙◌,
  if◌then◌else◌, Bool, false, ◌&&◌, ◌||◌, Option, none, some, List, [], ◌∷◌, ◌++◌, contains, lookup,
  arith, Bool-cases, inl, inr, All,
}
use mathlib.Core.List.{append-nil, append_assoc}
use mcp_multiplexer.Tool.{ToolInfo}
use mcp_multiplexer.Mux.{ServerEntry}
use mcp_multiplexer.Mux.Queries.{
  Servers, tool_key, tools_loop, tools_of, tools_for_loop, tools_for_servers,
}

-- A tool that is offered, with the name of its server.
abbrev pub Offer : Type 0
Offer = Text × ToolInfo

abbrev offers : Text → List ToolInfo → List Offer
offers name [] = []
offers name (t ∷ tools) = (name, t) ∷ offers name tools

abbrev entry_offers : Text → Option ServerEntry → List Offer
entry_offers name none = []
entry_offers name (some e) = offers name e.tools

-- The tools of the named servers that are registered, in the order of the names.
abbrev pub offered : Servers → List Text → List Offer
offered servers [] = []
offered servers (name ∷ names) = entry_offers name (lookup name servers) ++ offered servers names

-- Whether the tool of the server is among these.
abbrev pub is_among : Text → Text → List Offer → Bool
is_among server tool [] = false
is_among server tool ((j, t) ∷ seen) = (j == server && t.name == tool) || is_among server tool seen

-- The tools, each the first of its server and name.
abbrev pub firsts : List Offer → List Offer → List ToolInfo
firsts seen [] = []
firsts seen ((name, t) ∷ rest) =
    let others = firsts seen rest in
    let taken = t ∷ firsts ((name, t) ∷ seen) rest in
    if is_among name t.name seen then others else taken

-- The keys of offers.
abbrev keys_of : List Offer → List Text
keys_of [] = []
keys_of ((name, t) ∷ seen) = tool_key name t.name ∷ keys_of seen

abbrev pub has_slash : Text → Bool
has_slash s = contains b'/' s

-- The offers that have been seen after these.
abbrev seen_after : List Offer → List Offer → List Offer
seen_after seen [] = seen
seen_after seen ((name, t) ∷ rest) =
    seen_after (if is_among name t.name seen then seen else (name, t) ∷ seen) rest

abbrev SlashFree : List Offer → Type 0
SlashFree seen = All (λ (o : Offer). has_slash o.0 ≡ false) seen

tool_key-test :
    (j name x y : Text)
    → has_slash j ≡ false
    → has_slash name ≡ false
    → (tool_key j x == tool_key name y) ≡ (j == name && x == y)
unfolding tool_key
tool_key-test j name x y h k = elim (Bool-cases (tool_key j x == tool_key name y)) [
  | inl e ↦
      let (p, q) =
        separator_inj b'/' j name x y h k ((text_beq_iff (tool_key j x) (tool_key name y)).0 e) in
      ground (arith, e, p, q, ==_refl name, ==_refl y)
  | inr e ↦ ground (
    arith,
    e,
    text_beq_iff j name,
    text_beq_iff x y,
    text_beq_iff (tool_key j x) (tool_key name y),
  )
]

contains-keys_of :
    (name tool : Text) (seen : List Offer)
    → has_slash name ≡ false
    → SlashFree seen
    → contains (tool_key name tool) (keys_of seen) ≡ is_among name tool seen
contains-keys_of name tool [] h free = refl
contains-keys_of name tool ((j, t) ∷ seen) h free =
    ground
      (arith, tool_key-test j name t.name tool free.0 h, contains-keys_of name tool seen h free.1)

tools_loop-firsts :
    (name : Text) (tools : List ToolInfo) (seen : List Offer) (result : List ToolInfo)
    → has_slash name ≡ false
    → SlashFree seen
    → SlashFree (seen_after seen (offers name tools))
      × (tools_loop name tools (keys_of seen, result) ≡ (
        keys_of (seen_after seen (offers name tools)),
        result ++ firsts seen (offers name tools),
      ))
unfolding tools_loop
tools_loop-firsts name [] seen result h free =
    (free, ap (λ r. (keys_of seen, r)) (sym (append-nil result)))
tools_loop-firsts name (t ∷ tools) seen result h free =
    elim (Bool-cases (is_among name t.name seen)) [
      | inl old ↦
          rw (contains-keys_of name t.name seen h free, old, seen_after)
            (tools_loop-firsts name tools seen result h free)
      | inr new ↦
          let rest =
            tools_loop-firsts name tools ((name, t) ∷ seen) (result ++ t ∷ []) h (h, free) in
          rw (contains-keys_of name t.name seen h free, new, seen_after)
            (
              rest.0,
              rest.1
                  ∙ ap (λ r. (keys_of (seen_after ((name, t) ∷ seen) (offers name tools)), r))
                      (append_assoc result (t ∷ [])
                        (firsts ((name, t) ∷ seen) (offers name tools))),
            )
    ]

firsts-append :
    (xs ys seen : List Offer)
    → firsts seen (xs ++ ys) ≡ firsts seen xs ++ firsts (seen_after seen xs) ys
firsts-append [] ys seen = refl
firsts-append ((name, t) ∷ xs) ys seen = elim (Bool-cases (is_among name t.name seen)) [
  | inl old ↦ rw old (firsts-append xs ys seen)
  | inr new ↦ rw new (ap (◌∷◌ t) (firsts-append xs ys ((name, t) ∷ seen)))
]

tools_of-firsts :
    (name : Text) (o : Option ServerEntry) (seen : List Offer) (result : List ToolInfo)
    → has_slash name ≡ false
    → SlashFree seen
    → SlashFree (seen_after seen (entry_offers name o))
      × (tools_of name o (keys_of seen, result) ≡ (
        keys_of (seen_after seen (entry_offers name o)),
        result ++ firsts seen (entry_offers name o),
      ))
unfolding tools_of
tools_of-firsts name none seen result h free =
    (free, ap (λ r. (keys_of seen, r)) (sym (append-nil result)))
tools_of-firsts name (some e) seen result h free = tools_loop-firsts name e.tools seen result h free

tools_for_loop-firsts :
    (servers : Servers) (names : List Text) (seen : List Offer) (result : List ToolInfo)
    → All (λ name. has_slash name ≡ false) names
    → SlashFree seen
    → (tools_for_loop servers names (keys_of seen, result)).1
      ≡ result ++ firsts seen (offered servers names)
unfolding tools_for_loop
tools_for_loop-firsts servers [] seen result h free = sym (append-nil result)
tools_for_loop-firsts servers (name ∷ names) seen result h free =
    let here = entry_offers name (lookup name servers) in
    let first = tools_of-firsts name (lookup name servers) seen result h.0 free in
    let after = seen_after seen here in
    ap (λ acc. (tools_for_loop servers names acc).1) first.1
    ∙ tools_for_loop-firsts servers names after (result ++ firsts seen here) h.1 first.0
    ∙ append_assoc result (firsts seen here) (firsts after (offered servers names))
    ∙ ap (λ r. result ++ r) (sym (firsts-append here (offered servers names) seen))

-- Where no name that is asked for holds a slash, ToolsForServers gives the tools of the named
-- servers that are registered, in the order of the names, each pair of server and tool once: the
-- first time it comes.
pub tools_for_servers-firsts :
    (servers : Servers) (names : List Text)
    → All (λ name. has_slash name ≡ false) names
    → tools_for_servers servers names ≡ firsts [] (offered servers names)
unfolding tools_for_servers
tools_for_servers-firsts servers names h = tools_for_loop-firsts servers names [] [] h tt
