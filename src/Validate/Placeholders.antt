-- ===== src/Validate/Placeholders.antt =====
-- findInvalidArgs finds exactly the placeholder strings that objects reach, with their paths.
use mathlib.Core.List.{append-nil, append_assoc}
use mcp_multiplexer.Base.{
  Text, text_eq, text_beq_iff, ◌||◌, ◌≡◌, refl, ap, sym, subst, ◌∙◌, ◌↔◌, true, List, [], ◌∷◌, ◌++◌,
  contains, arith, Bool-cases, inl, inr,
}
use mcp_multiplexer.Json.{Value, null, bool, num, str, arr, obj, Fields, end, field}
use mcp_multiplexer.Transform.{Unicode}
use mcp_multiplexer.Validate.{is_placeholder, field_path, walk_args, walk_fields, find_invalid_args}

-- The map has the field.
pub data HasField (k : Text) (v : Value) : Fields → Type 0 where
  here : {m : Fields} → HasField k v (field k v m)
  there : {j : Text} {w : Value} {m : Fields} → HasField k v m → HasField k v (field j w m)

-- From the value at `path`, objects lead to a placeholder string at `found`.
pub data Placeholder (u : Unicode) : Value → Text → Text → Type 0 where
  at_string : (s path : Text) → is_placeholder u s ≡ true → Placeholder u (str s) path path
  in_field :
      {m : Fields} {path found : Text} (k : Text) (child : Value)
      → HasField k child m
      → Placeholder u child (field_path path k) found
      → Placeholder u (obj m) path found

mutual
  unfolding walk_args

  walk_args_append :
      (u : Unicode) (v : Value) (path : Text) (bad : List Text)
      → walk_args u v path bad ≡ bad ++ walk_args u v path []
  walk_args_append u null path bad = sym (append-nil bad)
  walk_args_append u (bool b) path bad = sym (append-nil bad)
  walk_args_append u (num n) path bad = sym (append-nil bad)
  walk_args_append u (str s) path bad = elim (Bool-cases (is_placeholder u s)) [
    | inl e ↦ rw e
    | inr e ↦ rw e (sym (append-nil bad))
  ]
  walk_args_append u (arr xs) path bad = sym (append-nil bad)
  walk_args_append u (obj m) path bad = walk_fields_append u m path bad

  walk_fields_append :
      (u : Unicode) (m : Fields) (path : Text) (bad : List Text)
      → walk_fields u m path bad ≡ bad ++ walk_fields u m path []
  walk_fields_append u end path bad = sym (append-nil bad)
  walk_fields_append u (field k child m) path bad =
      walk_fields_append u m path (walk_args u child (field_path path k) bad)
      ∙ ap (λ l. l ++ walk_fields u m path []) (walk_args_append u child (field_path path k) bad)
      ∙ append_assoc bad (walk_args u child (field_path path k) []) (walk_fields u m path [])
      ∙ ap (λ l. bad ++ l)
          (sym (walk_fields_append u m path (walk_args u child (field_path path k) [])))

contains-append :
    (q : Text) (xs ys : List Text) → contains q (xs ++ ys) ≡ (contains q xs || contains q ys)
contains-append q [] ys = refl
contains-append q (x ∷ xs) ys = ground (arith, contains-append q xs ys)

contains-walk_fields :
    (u : Unicode) (m : Fields) (path : Text) (bad : List Text) (q : Text)
    → contains q (walk_fields u m path bad)
      ≡ (contains q bad || contains q (walk_fields u m path []))
contains-walk_fields u m path bad q =
    ap (contains q) (walk_fields_append u m path bad)
    ∙ contains-append q bad (walk_fields u m path [])

mutual
  unfolding walk_args

  walk_args_sound :
      (u : Unicode) (v : Value) (path q : Text)
      → contains q (walk_args u v path []) ≡ true
      → Placeholder u v path q
  walk_args_sound u null path q h = absurd (ground arith)
  walk_args_sound u (bool b) path q h = absurd (ground arith)
  walk_args_sound u (num n) path q h = absurd (ground arith)
  walk_args_sound u (str s) path q h = elim (Bool-cases (is_placeholder u s)) [
    | inl e ↦
        let same : path ≡ q = (text_beq_iff path q).0 (ground (arith, e)) in
        subst (λ r. Placeholder u (str s) path r) same (at_string s path e)
    | inr e ↦ absurd (ground (arith, e))
  ]
  walk_args_sound u (arr xs) path q h = absurd (ground arith)
  walk_args_sound u (obj m) path q h =
      let (k, child, has, below) = walk_fields_sound u m path q h in in_field k child has below

  walk_fields_sound :
      (u : Unicode) (m : Fields) (path q : Text)
      → contains q (walk_fields u m path []) ≡ true
      → (k : Text) × (child : Value) × HasField k child m
        × Placeholder u child (field_path path k) q
  walk_fields_sound u end path q h = absurd (ground arith)
  walk_fields_sound u (field k child m) path q h =
      elim (Bool-cases (contains q (walk_args u child (field_path path k) []))) [
        | inl e ↦ (k, child, here, walk_args_sound u child (field_path path k) q e)
        | inr e ↦
            let (j, other, has, below) = walk_fields_sound u m path q (
              ground (
                arith,
                e,
                contains-walk_fields u m path (walk_args u child (field_path path k) []) q,
              )) in
            (j, other, there has, below)
      ]

complete_field :
    (u : Unicode) (path q k : Text) (child : Value) {m : Fields}
    → HasField k child m
    → contains q (walk_args u child (field_path path k) []) ≡ true
    → contains q (walk_fields u m path []) ≡ true
unfolding walk_args
complete_field u path q k child (here {m = m}) h =
    ground (arith, contains-walk_fields u m path (walk_args u child (field_path path k) []) q)
complete_field u path q k child (there {j = j} {w = w} {m = m} has) h = ground (
  arith,
  contains-walk_fields u m path (walk_args u w (field_path path j) []) q,
  complete_field u path q k child has h,
)

walk_args_complete :
    (u : Unicode) {v : Value} {path q : Text}
    → Placeholder u v path q
    → contains q (walk_args u v path []) ≡ true
unfolding walk_args
walk_args_complete u (at_string s path e) = rw e (ground (arith, text_beq_iff path path))
walk_args_complete u {path = path} {q = q} (in_field k child has below) =
    complete_field u path q k child has (walk_args_complete u below)

-- A path is reported exactly when objects lead to a placeholder string there. Arrays are not
-- entered, so a placeholder inside an array is not reported.
pub find_invalid_args_iff :
    (u : Unicode) (args : Fields) (q : Text)
    → (contains q (find_invalid_args u args) ≡ true) ↔ Placeholder u (obj args) [] q
unfolding find_invalid_args
find_invalid_args_iff u args q = (walk_args_sound u (obj args) [] q, walk_args_complete u)

nil_of_contains : (xs : List Text) → ((q : Text) → contains q xs ≡ true → ⊥) → xs ≡ []
nil_of_contains [] h = refl
nil_of_contains (x ∷ xs) h = absurd (h x (ground (arith, text_beq_iff x x)))

-- Arguments pass exactly when objects lead to no placeholder string at all.
pub find_invalid_args-eq-nil_iff :
    (u : Unicode) (args : Fields)
    → (find_invalid_args u args ≡ []) ↔ ((q : Text) → ¬ Placeholder u (obj args) [] q)
find_invalid_args-eq-nil_iff u args = (
  λ e q bad. ground (arith, e, ap (contains q) e, (find_invalid_args_iff u args q).1 bad),
  λ h.
      nil_of_contains (find_invalid_args u args)
        (λ q c. h q ((find_invalid_args_iff u args q).0 c)),
)
