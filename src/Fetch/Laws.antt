-- ===== src/Fetch/Laws.antt =====
-- What the flags of a fetched tool say, and when a refreshed list counts as changed.
use mcp_multiplexer.Base.{
  suc, Text, text_eq, text_beq, text_beq_iff, nat_beq_iff, bytes, ◌==◌, ◌≡◌, refl, sym, ap, ◌∙◌,
  ◌↔◌, true, false, Option, none, some, List, [], ◌∷◌, map, length, lookup, arith, nat_eq,
  Bool-cases, inl, inr,
}
use mcp_multiplexer.Tool.{ToolInfo}
use mcp_multiplexer.Host.{Annotations, RawTool}
use mcp_multiplexer.Cache.Keys.{is_cacheable}
use mcp_multiplexer.Fetch.{raw_info, annotated, with_write, or_true, same_names, tool_lists_equal}

abbrev FlagsSay : Option Annotations → Type 0
FlagsSay o =
    (a : Annotations) × (o ≡ some a)
    × (a.read_only_hint ≡ true)
    × (a.idempotent_hint ≡ true)
    × (a.destructive_hint ≡ some false)

unmarked : text_beq [] (bytes "true") ≡ false
unfolding text_beq
unmarked = refl

annotated_iff :
    (o : Option Annotations) (t : ToolInfo)
    → lookup (bytes "cacheable") t.custom ≡ none
    → (is_cacheable (with_write (annotated o t)) ≡ true) ↔ FlagsSay o
unfolding is_cacheable with_write annotated or_true
annotated_iff none t h =
    (λ c. absurd (ground (arith, c)), λ (a, e, r, i, d). absurd (ground (arith, e)))
annotated_iff (some a) t h = (
  λ c. (
    a,
    refl,
    ground (arith, h, c, unmarked),
    ground (arith, h, c, unmarked),
    ground (arith, h, c),
  ),
  λ (b, e, r, i, d). ground (arith, e, h, r, i, d),
)

-- As the server describes it, a tool is cached exactly if its annotations say that it is read-only,
-- idempotent and, in so many words, not destructive. A read-only tool without a destructive hint is
-- not cached.
pub is_cacheable-raw_info_iff :
    (server : Text) (t : RawTool)
    → (is_cacheable (raw_info server t) ≡ true) ↔ (
        (a : Annotations) × (t.annotations ≡ some a)
        × (a.read_only_hint ≡ true)
        × (a.idempotent_hint ≡ true)
        × (a.destructive_hint ≡ some false))
unfolding raw_info lookup
is_cacheable-raw_info_iff server t = annotated_iff t.annotations _ refl

abbrev pub full_name : ToolInfo → Text × Text
full_name t = (t.server, t.name)

same_names_iff :
    (a b : List ToolInfo)
    → length a ≡ length b
    → (same_names a b ≡ true) ↔ (map full_name a ≡ map full_name b)
unfolding same_names
same_names_iff [] [] h = ground arith
same_names_iff [] (y ∷ b) h = absurd (ground arith)
same_names_iff (x ∷ a) [] h = absurd (ground arith)
same_names_iff (x ∷ a) (y ∷ b) h = ground (
  arith,
  same_names_iff a b (ground arith),
  text_beq_iff x.server y.server,
  text_beq_iff x.name y.name,
)

length-map : (a : List ToolInfo) → length (map full_name a) ≡ length a
length-map [] = refl
length-map (x ∷ a) = ap suc (length-map a)

-- Two tool lists count as equal exactly when they have the same servers and names in the same order;
-- descriptions, schemas and flags do not count.
pub tool_lists_equal_iff :
    (a b : List ToolInfo) → (tool_lists_equal a b ≡ true) ↔ (map full_name a ≡ map full_name b)
unfolding tool_lists_equal
tool_lists_equal_iff a b = elim (Bool-cases (length a == length b)) [
  | inl same ↦
      let (sound, complete) = same_names_iff a b ((nat_beq_iff (length a) (length b)).0 same) in
      (λ h. sound (ground (arith, h)), λ h. ground (arith, same, complete h))
  | inr differ ↦ (
    λ h. absurd (ground (arith, h, differ)),
    λ h. absurd (
        ground (
          arith,
          differ,
          nat_beq_iff (length a) (length b),
          sym (length-map a) ∙ ap length h ∙ length-map b,
        )),
  )
]
