-- ===== src/Transform/Keys.antt =====
-- The loops of transform.go over the top-level keys: snakeToCamelKeys and applyFieldMap rename
-- every key, and where two keys meet under one name the order of the range decides.
use mcp_multiplexer.Base.{
  Text, text_eq, text_beq_iff, ◌≡◌, ◌≢◌, refl, true, false, List, [], ◌∷◌, some, none, map,
  contains, distinct, lookup, arith,
}
use mcp_multiplexer.Json.{Value, Fields, end, field}
use mcp_multiplexer.Json.Access.{get, put, field_keys}
use mcp_multiplexer.Json.Rename.{rename, get-rename, get-rename_other, rename_order}
use mcp_multiplexer.Transform.{
  snake_to_camel, camel_into, camel_value, snake_to_camel_keys, renamed, field_map_into,
  apply_field_map, join_into, join_value, copy_into,
}

abbrev same_value : Value → Value
same_value v = v

abbrev same_key : Text → Text
same_key k = k

pub camel_into-rename :
    (m out : Fields) → camel_into m out ≡ rename snake_to_camel camel_value m out
unfolding camel_into rename
camel_into-rename end out = refl
camel_into-rename (field k v m) out =
    camel_into-rename m (put (snake_to_camel k) (camel_value v) out)

pub join_into-rename : (m out : Fields) → join_into m out ≡ rename same_key join_value m out
unfolding join_into rename
join_into-rename end out = refl
join_into-rename (field k v m) out = join_into-rename m (put k (join_value v) out)

pub copy_into-rename : (m out : Fields) → copy_into m out ≡ rename same_key same_value m out
unfolding copy_into rename
copy_into-rename end out = refl
copy_into-rename (field k v m) out = copy_into-rename m (put k v out)

field_map_into-rename :
    (fm : List (Text × Text)) (m out : Fields)
    → field_map_into fm m out ≡ rename (renamed fm) same_value m out
unfolding field_map_into rename
field_map_into-rename fm end out = refl
field_map_into-rename fm (field k v m) out = field_map_into-rename fm m (put (renamed fm k) v out)

-- No two keys of the map have the same camelCase form.
abbrev pub CamelDistinct : Fields → Type 0
CamelDistinct m = distinct (map snake_to_camel (field_keys m)) ≡ true

-- Where no two keys have one camelCase form, each field is found under its camelCase key, with its
-- value converted.
pub get-snake_to_camel_keys :
    (k : Text) (m : Fields) {v : Value}
    → CamelDistinct m
    → get k m ≡ some v
    → get (snake_to_camel k) (snake_to_camel_keys m) ≡ some (camel_value v)
unfolding snake_to_camel_keys
get-snake_to_camel_keys k m d h =
    rw camel_into-rename (get-rename snake_to_camel camel_value k m end d h)

-- Where no two keys have one camelCase form, the converted map does not depend on the order in
-- which the range visits the fields: maps with the same entries have converted maps with the same
-- entries.
pub snake_to_camel_keys_order :
    (m n : Fields)
    → CamelDistinct m
    → CamelDistinct n
    → ((k : Text) → get k m ≡ get k n)
    → (j : Text) → get j (snake_to_camel_keys m) ≡ get j (snake_to_camel_keys n)
unfolding snake_to_camel_keys
snake_to_camel_keys_order m n dm dn same j =
    rw (camel_into-rename m end, camel_into-rename n end)
      (rename_order snake_to_camel camel_value m n dm dn same j)

-- Two fields whose keys differ and have one camelCase form: the field that the range visits last
-- is kept, so the two orders send different arguments.
pub snake_to_camel_keys_collision :
    (k j : Text) (v w : Value)
    → k ≢ j
    → snake_to_camel k ≡ snake_to_camel j
    → (get (snake_to_camel k) (snake_to_camel_keys (field k v (field j w end)))
        ≡ some (camel_value w))
      × (get (snake_to_camel k) (snake_to_camel_keys (field j w (field k v end)))
          ≡ some (camel_value v))
unfolding snake_to_camel_keys camel_into put get
snake_to_camel_keys_collision k j v w ne e = ground (
  arith,
  text_beq_iff (snake_to_camel k) (snake_to_camel j),
  text_beq_iff (snake_to_camel j) (snake_to_camel k),
  text_beq_iff (snake_to_camel k) (snake_to_camel k),
)

-- With a field map that sends no two keys to one name, each field is found, unchanged, under its
-- mapped name; a key that the map lacks keeps its name.
pub get-apply_field_map :
    (k : Text) (args : Fields) (fm : List (Text × Text)) {v : Value}
    → distinct (map (renamed fm) (field_keys args)) ≡ true
    → get k args ≡ some v
    → get (renamed fm k) (apply_field_map args fm) ≡ some v
unfolding apply_field_map
get-apply_field_map k args [] d h = unfold renamed lookup in h
get-apply_field_map k args (r ∷ fm) d h =
    rw field_map_into-rename (get-rename (renamed (r ∷ fm)) same_value k args end d h)

-- After a field map, the names that no field was mapped to are absent: an old name does not stay
-- beside the new one.
pub apply_field_map_absent :
    (j : Text) (args : Fields) (r : Text × Text) (fm : List (Text × Text))
    → contains j (map (renamed (r ∷ fm)) (field_keys args)) ≡ false
    → get j (apply_field_map args (r ∷ fm)) ≡ none
unfolding apply_field_map get
apply_field_map_absent j args r fm h =
    rw field_map_into-rename (get-rename_other (renamed (r ∷ fm)) same_value j args end h)
