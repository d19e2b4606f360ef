-- ===== src/Transform/Arrays.antt =====
-- joinStringArrays: arrays of strings alone become one string, all else stays.
use mcp_multiplexer.Base.{
  Text, text_eq, text_beq_iff, ◌≡◌, refl, ap, ◌∙◌, Bool, true, false, not, ◌&&◌, Option, none, some,
  ◌∷◌, contains, map, arith,
}
use mcp_multiplexer.Json.{Value, null, bool, num, str, arr, obj, Items, Fields, end, field}
use mcp_multiplexer.Json.Access.{get, put, field_keys, IsDistinct, contains-put}
use mcp_multiplexer.Json.Rename.{IsFixed, rename_fixed, get-rename}
use mcp_multiplexer.Transform.{all_strings, join_array, join_into, join_value, join_string_arrays}
use mcp_multiplexer.Transform.Keys.{join_into-rename}

abbrev is_none {ℓ} : {A : Type ℓ} → Option A → Bool
is_none none = true
is_none (some a) = false

-- No array of strings alone is left, and no key stands twice, in the map and the maps nested in it.
unfoldable mutual
  pub is_joined : Fields → Bool
  is_joined end = true
  is_joined (field k v m) = not (contains k (field_keys m)) && (is_joined_value v && is_joined m)

  pub is_joined_value : Value → Bool
  is_joined_value null = true
  is_joined_value (bool b) = true
  is_joined_value (num n) = true
  is_joined_value (str s) = true
  is_joined_value (arr xs) = is_none (all_strings xs)
  is_joined_value (obj m) = is_joined m

is_joined-put :
    (k : Text) (v : Value) (m : Fields)
    → is_joined_value v ≡ true
    → is_joined m ≡ true
    → is_joined (put k v m) ≡ true
unfolding is_joined put
is_joined-put k v end hv h = ground arith
is_joined-put k v (field i w m) hv h =
    ground (arith, text_beq_iff i k, text_beq_iff k i, contains-put k i v m, is_joined-put k v m)

join_array-is_joined : (xs : Items) → is_joined_value (join_array xs) ≡ true
unfolding is_joined join_array
join_array-is_joined xs = ground arith

mutual
  unfolding is_joined join_into

  join_into-is_joined : (m out : Fields) → is_joined out ≡ true → is_joined (join_into m out) ≡ true
  join_into-is_joined end out h = h
  join_into-is_joined (field k v m) out h =
      join_into-is_joined m (put k (join_value v) out)
        (is_joined-put k (join_value v) out (join_value-is_joined v) h)

  join_value-is_joined : (v : Value) → is_joined_value (join_value v) ≡ true
  join_value-is_joined null = refl
  join_value-is_joined (bool b) = refl
  join_value-is_joined (num n) = refl
  join_value-is_joined (str s) = refl
  join_value-is_joined (arr xs) = join_array-is_joined xs
  join_value-is_joined (obj m) = join_into-is_joined m end refl

is_joined-IsDistinct : (m : Fields) → is_joined m ≡ true → IsDistinct m
unfolding is_joined
is_joined-IsDistinct end h = refl
is_joined-IsDistinct (field k v m) h = ground (arith, is_joined-IsDistinct m)

join_array_fixed : (xs : Items) → is_none (all_strings xs) ≡ true → join_array xs ≡ arr xs
unfolding join_array
join_array_fixed xs h = ground arith

mutual
  unfolding is_joined join_into

  is_joined-IsFixed : (m : Fields) → is_joined m ≡ true → IsFixed (λ k. k) join_value m
  is_joined-IsFixed end h = tt
  is_joined-IsFixed (field k v m) h =
      (refl, join_value_fixed v (ground arith), is_joined-IsFixed m (ground arith))

  join_value_fixed : (v : Value) → is_joined_value v ≡ true → join_value v ≡ v
  join_value_fixed null h = refl
  join_value_fixed (bool b) h = refl
  join_value_fixed (num n) h = refl
  join_value_fixed (str s) h = refl
  join_value_fixed (arr xs) h = join_array_fixed xs h
  join_value_fixed (obj m) h = ap obj (
      join_into-rename m end
      ∙ rename_fixed (λ k. k) join_value m (is_joined-IsFixed m h) (is_joined-IsDistinct m h))

-- No array of strings alone is left at any depth that objects reach.
pub join_string_arrays-is_joined : (m : Fields) → is_joined (join_string_arrays m) ≡ true
unfolding join_string_arrays is_joined
join_string_arrays-is_joined m = join_into-is_joined m end refl

-- A second pass changes nothing.
pub join_string_arrays_idem :
    (m : Fields) → join_string_arrays (join_string_arrays m) ≡ join_string_arrays m
unfolding join_string_arrays
join_string_arrays_idem m =
    let normal = join_string_arrays-is_joined m in
    join_into-rename (join_into m end) end
    ∙ rename_fixed (λ k. k) join_value (join_into m end)
        (is_joined-IsFixed (join_into m end) normal) (is_joined-IsDistinct (join_into m end) normal)

map_same : (m : Fields) → map (λ (k : Text). k) (field_keys m) ≡ field_keys m
map_same end = refl
map_same (field k v m) = ap (◌∷◌ k) (map_same m)

-- Every top-level field keeps its key, and its value is the converted one: an array of strings
-- alone becomes the strings joined by spaces.
pub get-join_string_arrays :
    (k : Text) (m : Fields) {v : Value}
    → IsDistinct m
    → get k m ≡ some v
    → get k (join_string_arrays m) ≡ some (join_value v)
unfolding join_string_arrays
get-join_string_arrays k m d h =
    rw (join_into-rename m end) (get-rename (λ k. k) join_value k m end (rw map_same d) h)
