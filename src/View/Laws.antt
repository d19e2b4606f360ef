-- ===== src/View/Laws.antt =====
-- Which views there are, and which calls go through one.
use mcp_multiplexer.Base.{
  if◌then◌else◌, Text, text_eq, text_beq_iff, ◌≡◌, refl, sym, ap, ◌∙◌, ◌↔◌, true, false, none, some,
  List, [], ◌∷◌, ◌++◌, All, All-contains, contains, is_empty, lookup, insert, lookup-insert, arith,
  Bool-cases, Option-cases, inl, inr,
}
use mcp_multiplexer.Context.{Context}
use mcp_multiplexer.Errors.{Failure, hidden_server}
use mcp_multiplexer.Host.{Host, Answer, ok, err}
use mcp_multiplexer.Mux.{Mux, ServerEntry}
use mcp_multiplexer.Mux.Queries.{Servers}
use mcp_multiplexer.Caller.Run.{Run}
use mcp_multiplexer.Caller.Call.{call_tool}
use mcp_multiplexer.View.{
  View, filter_step, filter_loop, filter_result, filter_by_names, call_tool_in_view,
}

abbrev pub IsKnown : Servers → Text → Type 0
IsKnown all name = (e : ServerEntry) × (lookup name all ≡ some e)

abbrev Found : Type 0
Found = List Text × Servers

module _ (all : Servers) (name : Text) (names : List Text) (acc : Found) where
  loop_missing :
      lookup name all ≡ none
      → filter_loop all (name ∷ names) acc ≡ filter_loop all names (acc.0 ++ name ∷ [], acc.1)
  unfolding filter_loop filter_step
  loop_missing e = ap (λ o. filter_loop all names (filter_step name o acc)) e

  loop_found :
      (x : ServerEntry)
      → lookup name all ≡ some x
      → filter_loop all (name ∷ names) acc ≡ filter_loop all names (acc.0, insert name x acc.1)
  unfolding filter_loop filter_step
  loop_found x e = ap (λ o. filter_loop all names (filter_step name o acc)) e

append_nonempty : (xs : List Text) (x : Text) → is_empty (xs ++ x ∷ []) ≡ false
append_nonempty [] x = refl
append_nonempty (y ∷ xs) x = refl

-- A missing name stays missing.
missing_stays :
    (all : Servers) (names : List Text) (acc : Found)
    → is_empty acc.0 ≡ false
    → is_empty (filter_loop all names acc).0 ≡ false
missing_stays all [] acc h = unfold filter_loop in h
missing_stays all (name ∷ names) acc h = elim (Option-cases (lookup name all)) [
  | inl e ↦
      rw (loop_missing all name names acc e)
        (missing_stays all names _ (append_nonempty acc.0 name))
  | inr (x, e) ↦ rw (loop_found all name names acc x e) (missing_stays all names _ h)
]

filter_loop_iff :
    (all : Servers) (names : List Text) (servers : Servers)
    → (is_empty (filter_loop all names ([], servers)).0 ≡ true) ↔ All (IsKnown all) names
filter_loop_iff all [] servers = (λ h. tt, λ h. unfold filter_loop in refl)
filter_loop_iff all (name ∷ names) servers = elim (Option-cases (lookup name all)) [
  | inl e ↦ (
    λ h. absurd (
        ground (
          arith,
          missing_stays all names (name ∷ [], servers) refl,
          ap (λ (f : Found). is_empty f.0) (loop_missing all name names ([], servers) e),
        )),
    λ ((x, f), k). absurd (ground (arith, e, f)),
  )
  | inr (x, e) ↦
      let step = ap (λ (f : Found). is_empty f.0) (loop_found all name names ([], servers) x e) in
      let rest = filter_loop_iff all names (insert name x servers) in
      (λ h. ((x, e), rest.0 (sym step ∙ h)), λ (k, h). step ∙ rest.1 h)
]

-- The entries of the names are found, and no others.
filter_other :
    (all : Servers) (k : Text) (names : List Text) (acc : Found)
    → contains k names ≡ false
    → lookup k (filter_loop all names acc).1 ≡ lookup k acc.1
filter_other all k [] acc h = unfold filter_loop in refl
filter_other all k (name ∷ names) acc h = elim (Option-cases (lookup name all)) [
  | inl e ↦
      ap (λ (f : Found). lookup k f.1) (loop_missing all name names acc e)
      ∙ filter_other all k names _ (ground (arith, h))
  | inr (x, e) ↦
      ap (λ (f : Found). lookup k f.1) (loop_found all name names acc x e)
      ∙ filter_other all k names _ (ground (arith, h))
      ∙ lookup-insert name k x acc.1
      ∙ ground (arith, h, text_beq_iff name k)
]

filter_named :
    (all : Servers) (k : Text) (x : ServerEntry) (names : List Text) (acc : Found)
    → lookup k all ≡ some x
    → contains k names ≡ true
    → lookup k (filter_loop all names acc).1 ≡ some x
filter_named all k x [] acc at h = absurd (ground (arith, h))
filter_named all k x (name ∷ names) acc at h = elim (Bool-cases (contains k names)) [
  | inl later ↦ elim (Option-cases (lookup name all)) [
    | inl e ↦
        ap (λ (f : Found). lookup k f.1) (loop_missing all name names acc e)
        ∙ filter_named all k x names _ at later
    | inr (y, e) ↦
        ap (λ (f : Found). lookup k f.1) (loop_found all name names acc y e)
        ∙ filter_named all k x names _ at later
  ]
  | inr gone ↦
      let same : name ≡ k = ground (arith, h, gone, text_beq_iff name k) in
      ap (λ (f : Found). lookup k f.1) (loop_found all name names acc x (rw same at))
      ∙ filter_other all k names _ gone
      ∙ lookup-insert name k x acc.1
      ∙ ground (arith, same, text_beq_iff name k)
]

accepted :
    {W E : Type 0} (mx : Mux W E) (names : List Text) (found : Found) (v : View W E)
    → filter_result mx names found ≡ ok v
    → (is_empty found.0 ≡ true) × (v.servers ≡ found.1)
unfolding filter_result
accepted mx names ([], servers) v e = (
  refl,
  ap (λ (a : Answer (Failure _) (View _ _)). elim a [ ok u ↦ u.servers | err x ↦ v.servers ])
      (sym e),
)
accepted mx names (m ∷ missing, servers) v e = absurd (ground (arith, e))

accepting :
    {W E : Type 0} (mx : Mux W E) (names : List Text) (found : Found)
    → is_empty found.0 ≡ true
    → (v : View W E) × (filter_result mx names found ≡ ok v)
unfolding filter_result
accepting mx names ([], servers) h = (_, refl)
accepting mx names (m ∷ missing, servers) h = absurd (ground (arith, h))

-- `FilterByNames` gives a view exactly when every name is that of a registered server.
pub filter_by_names_iff :
    {W E : Type 0} (mx : Mux W E) (names : List Text)
    → ((v : View W E) × (filter_by_names mx names ≡ ok v)) ↔ All (IsKnown mx.servers) names
unfolding filter_by_names
filter_by_names_iff mx names = (
  λ (v, e). (filter_loop_iff mx.servers names []).0 (accepted mx names _ v e).0,
  λ h. accepting mx names _ ((filter_loop_iff mx.servers names []).1 h),
)

-- A view sends a call of one of its servers on to the multiplexer unchanged, and refuses every other
-- call with an error that names the server, without any effect.
pub call_tool_in_view_lem :
    {W E : Type 0} (host : Host W E) (mx : Mux W E) (names : List Text) (v : View W E)
    (ctx : Context) (server tool args : Text) (s : Run W E)
    → filter_by_names mx names ≡ ok v
    → call_tool_in_view host v ctx server tool args s ≡ (
        if contains server names
        then call_tool host v.parent ctx server tool args s
        else (err (hidden_server server), s))
unfolding filter_by_names call_tool_in_view lookup
call_tool_in_view_lem host mx names v ctx server tool args s made =
    let (full, same) = accepted mx names _ v made in
    elim (Bool-cases (contains server names)) [
      | inl h ↦
          let known = (filter_loop_iff mx.servers names []).0 full in
          let (e, at) = All-contains (IsKnown mx.servers) server names known h in
          rw
            (
              ap (lookup server) same ∙ filter_named mx.servers server e names ([], []) at h,
              call_tool_in_view,
              h,
            )
            refl
      | inr h ↦
          rw
            (
              ap (lookup server) same ∙ filter_other mx.servers server names ([], []) h,
              lookup,
              call_tool_in_view,
              h,
            )
            refl
    ]
