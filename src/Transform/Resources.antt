-- ===== src/Transform/Resources.antt =====
-- singularizeResourceType and the layered plural-to-singular map.
use mcp_multiplexer.Base.{
  Text, text_eq, ◌==◌, if◌then◌else◌, ◌≡◌, refl, ◌∙◌, true, Option, none, some, List, distinct,
  lookup, insert_all, lookup-insert_all, keys, arith, Option-cases, inl, inr,
}
use mcp_multiplexer.Json.{Value, str, Fields, end, field}
use mcp_multiplexer.Json.Access.{get, put, IsDistinct, get-put}
use mcp_multiplexer.Json.Rename.{rename_fixed, IsFixed}
use mcp_multiplexer.Transform.{
  Unicode, to_lower, k8s_resource_singular, merged_singular_map, resource_type, copy_into,
  singularize_resource_type,
}
use mcp_multiplexer.Transform.Keys.{copy_into-rename}

all-IsFixed : (m : Fields) → IsFixed (λ k. k) (λ v. v) m
all-IsFixed end = tt
all-IsFixed (field k v m) = (refl, refl, all-IsFixed m)

copy-eq_self : (m : Fields) → IsDistinct m → copy_into m end ≡ m
copy-eq_self m d = copy_into-rename m end ∙ rename_fixed (λ k. k) (λ v. v) m (all-IsFixed m) d

-- The value that the singular map gives for an argument, if the argument is a string with an entry.
unfoldable pub singular_of : Unicode → List (Text × Text) → Option Value → Option Text
singular_of u singular (some (str s)) = lookup (to_lower u s) singular
singular_of u singular _ = none

pub singularize_lem :
    (u : Unicode) (args : Fields) (singular : List (Text × Text))
    → IsDistinct args
    → singularize_resource_type u args singular
      ≡ elim (singular_of u singular (get resource_type args)) [
        | none ↦ args
        | some s ↦ put resource_type (str s) args
      ]
unfolding singularize_resource_type singular_of
singularize_lem u args singular d = ground (arith, copy-eq_self args d)

-- Every argument but `resourceType` is what it was; `resourceType` is replaced exactly when it is a
-- string whose lower-case form has an entry.
pub get-singularize_resource_type :
    (u : Unicode) (args : Fields) (singular : List (Text × Text)) (k : Text)
    → IsDistinct args
    → get k (singularize_resource_type u args singular)
      ≡ elim (singular_of u singular (get resource_type args)) [
        | none ↦ get k args
        | some s ↦ if resource_type == k then some (str s) else get k args
      ]
get-singularize_resource_type u args singular k d =
    elim (Option-cases (singular_of u singular (get resource_type args))) [
      | inl e ↦ rw (singularize_lem u args singular d, e) refl
      | inr (s, e) ↦
          rw (singularize_lem u args singular d, e) (get-put resource_type k (str s) args)
    ]

-- The per-server entry wins over the global one, and that over the built-in one.
pub lookup-merged_singular_map :
    (k : Text) (global per_server : List (Text × Text))
    → distinct (keys global) ≡ true
    → distinct (keys per_server) ≡ true
    → lookup k (merged_singular_map global per_server) ≡ elim (lookup k per_server) [
      | some s ↦ some s
      | none ↦ elim (lookup k global) [ some s ↦ some s | none ↦ lookup k k8s_resource_singular ]
    ]
unfolding merged_singular_map
lookup-merged_singular_map k global per_server dg ds = ground (
  arith,
  lookup-insert_all k k8s_resource_singular global dg,
  lookup-insert_all k (insert_all k8s_resource_singular global) per_server ds,
)
