-- ===== src/Mux/KindGroups/Laws.antt =====
-- What a group of KindGroups holds.
use mcp_multiplexer.Base.{
  Text, text_eq, text_beq_iff, ◌==◌, ◌≡◌, refl, sym, ap, ap₂, ◌∙◌, fun_ext, if◌then◌else◌, List, [],
  ◌∷◌, ◌++◌, map, keys, lookup, insert, lookup-insert, sort, arith, Bool-cases, inl, inr,
}
use mathlib.Core.List.{append_assoc, append-nil}
use mcp_multiplexer.Tool.{ToolInfo}
use mcp_multiplexer.Mux.Queries.{Servers, kind_of}
use mcp_multiplexer.Mux.KindGroups.{
  KindGroup, Lists, list_at, add_to_set, add_tools, collect, group, groups, kind_groups,
}

-- The kinds of the servers, each once.
abbrev pub kinds : Servers → List Text → List Text
kinds [] l = l
kinds ((name, e) ∷ servers) l = kinds servers (add_to_set (kind_of name e) l)

-- The names of the servers of a kind.
abbrev pub names_of : Text → Servers → List Text
names_of kind [] = []
names_of kind ((name, e) ∷ servers) =
    let rest = names_of kind servers in if kind_of name e == kind then name ∷ rest else rest

-- The names of the tools that the servers of a kind have.
abbrev pub tool_names_of : Text → Servers → List Text
tool_names_of kind [] = []
tool_names_of kind ((name, e) ∷ servers) =
    let rest = tool_names_of kind servers in
    if kind_of name e == kind then map (λ (t : ToolInfo). t.name) e.tools ++ rest else rest

-- The elements of a list, each once, in the order of their first occurrence.
abbrev pub once : List Text → List Text → List Text
once [] l = l
once (t ∷ ts) l = once ts (add_to_set t l)

once-append : (xs ys l : List Text) → once (xs ++ ys) l ≡ once ys (once xs l)
once-append [] ys l = refl
once-append (x ∷ xs) ys l = once-append xs ys (add_to_set x l)

add_tools-once :
    (tools : List ToolInfo) (l : List Text)
    → add_tools tools l ≡ once (map (λ (t : ToolInfo). t.name) tools) l
unfolding add_tools
add_tools-once [] l = refl
add_tools-once (t ∷ tools) l = add_tools-once tools (add_to_set t.name l)

list_at-insert :
    (k j : Text) (l : List Text) (m : Lists)
    → list_at j (insert k l m) ≡ (if k == j then l else list_at j m)
list_at-insert k j l m = ground (arith, lookup-insert k j l m)

keys-insert : (k : Text) (l : List Text) (m : Lists) → keys (insert k l m) ≡ add_to_set k (keys m)
unfolding insert
keys-insert k l [] = refl
keys-insert k l ((j, was) ∷ m) = ground (arith, keys-insert k l m)

collect-keys :
    (servers : Servers) (m n : Lists) → keys (collect servers (m, n)).0 ≡ kinds servers (keys m)
unfolding collect
collect-keys [] m n = refl
collect-keys ((name, e) ∷ servers) m n =
    collect-keys servers _ _ ∙ ap (kinds servers) (keys-insert (kind_of name e) _ m)

-- What one round of the loop adds for a kind.
names_step :
    (k kind name : Text) (m : Lists) (rest : List Text)
    → list_at kind (insert k (list_at k m ++ name ∷ []) m) ++ rest
      ≡ list_at kind m ++ (if k == kind then name ∷ rest else rest)
names_step k kind name m rest =
    ap (λ l. l ++ rest) (list_at-insert k kind (list_at k m ++ name ∷ []) m)
    ∙ elim (Bool-cases (k == kind)) [
      | inl e ↦ rw e (
          append_assoc (list_at k m) (name ∷ []) rest
          ∙ ap (λ x. list_at x m ++ name ∷ rest) ((text_beq_iff k kind).0 e))
      | inr e ↦ rw e refl
    ]

tools_step :
    (k kind : Text) (tools : List ToolInfo) (m : Lists) (rest : List Text)
    → once rest (list_at kind (insert k (add_tools tools (list_at k m)) m))
      ≡ once
          (if k == kind then map (λ (t : ToolInfo). t.name) tools ++ rest else rest)
          (list_at kind m)
tools_step k kind tools m rest =
    ap (once rest) (list_at-insert k kind (add_tools tools (list_at k m)) m)
    ∙ elim (Bool-cases (k == kind)) [
      | inl e ↦ rw e (
          ap (once rest) (add_tools-once tools (list_at k m))
          ∙ sym (once-append (map (λ (t : ToolInfo). t.name) tools) rest (list_at k m))
          ∙ ap (λ x. once (map (λ (t : ToolInfo). t.name) tools ++ rest) (list_at x m))
              ((text_beq_iff k kind).0 e))
      | inr e ↦ rw e refl
    ]

collect-names :
    (kind : Text) (servers : Servers) (m n : Lists)
    → list_at kind (collect servers (m, n)).0 ≡ list_at kind m ++ names_of kind servers
unfolding collect
collect-names kind [] m n = sym (append-nil _)
collect-names kind ((name, e) ∷ servers) m n =
    collect-names kind servers _ _ ∙ names_step (kind_of name e) kind name m (names_of kind servers)

collect-tools :
    (kind : Text) (servers : Servers) (m n : Lists)
    → list_at kind (collect servers (m, n)).1 ≡ once (tool_names_of kind servers) (list_at kind n)
unfolding collect
collect-tools kind [] m n = refl
collect-tools kind ((name, e) ∷ servers) m n =
    collect-tools kind servers _ _
    ∙ tools_step (kind_of name e) kind e.tools n (tool_names_of kind servers)

abbrev pub group_of : Lists → Servers → Text → KindGroup
group_of hints servers kind = record {
  kind = kind;
  servers = sort (names_of kind servers);
  tools = sort (once (tool_names_of kind servers) []);
  hints = list_at kind hints;
}

group-group_of :
    (hints : Lists) (servers : Servers) (kind : Text)
    → group hints (collect servers ([], [])).0 (collect servers ([], [])).1 kind
      ≡ group_of hints servers kind
unfolding group lookup
group-group_of hints servers kind =
    ap₂
      (λ names tools.
        let g : KindGroup = record {
          kind = kind;
          servers = names;
          tools = tools;
          hints = list_at kind hints;
        } in
        g)
      (ap sort (collect-names kind servers [] [])) (ap sort (collect-tools kind servers [] []))

-- The groups are those of the kinds that some server has, each once, in sorted order; the group of a
-- kind holds the sorted names of exactly the servers of the kind, the sorted names of their tools,
-- each once, and the kind's hints.
pub kind_groups-group_of :
    (hints : Lists) (servers : Servers)
    → kind_groups hints servers ≡ map (group_of hints servers) (sort (kinds servers []))
unfolding kind_groups groups
kind_groups-group_of hints servers =
    ap₂ map (fun_ext (group-group_of hints servers)) (ap sort (collect-keys servers [] []))
