-- ===== src/Transform/Camel.antt =====
-- snakeToCamelKeys on whole documents: what it returns has a normal form, which it leaves alone.
use mcp_multiplexer.Base.{
  Text, text_eq, nat_eq, text_beq_iff, ◌≡◌, refl, ap, ◌∙◌, Bool, true, false, not, ◌&&◌, contains,
  arith,
}
use mcp_multiplexer.Json.{Value, null, bool, num, str, arr, obj, Fields, end, field}
use mcp_multiplexer.Json.Access.{put, field_keys, IsDistinct, contains-put}
use mcp_multiplexer.Json.Rename.{IsFixed, rename_fixed}
use mcp_multiplexer.Transform.{snake_to_camel, camel_into, camel_value, snake_to_camel_keys}
use mcp_multiplexer.Transform.Names.{snake_to_camel-lacks_underscore, snake_to_camel_absent}
use mcp_multiplexer.Transform.Keys.{camel_into-rename}

-- Every key has no underscore, and no key is there twice, in the map and in the maps nested in it.
unfoldable mutual
  pub is_camel : Fields → Bool
  is_camel end = true
  is_camel (field k v m) =
      not (contains b'_' k) && (not (contains k (field_keys m)) && (is_camel_value v && is_camel m))

  pub is_camel_value : Value → Bool
  is_camel_value null = true
  is_camel_value (bool b) = true
  is_camel_value (num n) = true
  is_camel_value (str s) = true
  is_camel_value (arr xs) = true
  is_camel_value (obj m) = is_camel m

is_camel-put :
    (k : Text) (v : Value) (m : Fields)
    → contains b'_' k ≡ false
    → is_camel_value v ≡ true
    → is_camel m ≡ true
    → is_camel (put k v m) ≡ true
unfolding is_camel put
is_camel-put k v end hk hv h = ground arith
is_camel-put k v (field i w m) hk hv h =
    ground (arith, text_beq_iff i k, text_beq_iff k i, contains-put k i v m, is_camel-put k v m)

mutual
  unfolding is_camel camel_into

  camel_into-is_camel : (m out : Fields) → is_camel out ≡ true → is_camel (camel_into m out) ≡ true
  camel_into-is_camel end out h = h
  camel_into-is_camel (field k v m) out h =
      camel_into-is_camel m (put (snake_to_camel k) (camel_value v) out) (
        is_camel-put (snake_to_camel k) (camel_value v) out (snake_to_camel-lacks_underscore k)
          (camel_value-is_camel v) h)

  camel_value-is_camel : (v : Value) → is_camel_value (camel_value v) ≡ true
  camel_value-is_camel null = refl
  camel_value-is_camel (bool b) = refl
  camel_value-is_camel (num n) = refl
  camel_value-is_camel (str s) = refl
  camel_value-is_camel (arr xs) = refl
  camel_value-is_camel (obj m) = camel_into-is_camel m end refl

is_camel-IsDistinct : (m : Fields) → is_camel m ≡ true → IsDistinct m
unfolding is_camel
is_camel-IsDistinct end h = refl
is_camel-IsDistinct (field k v m) h = ground (arith, is_camel-IsDistinct m)

mutual
  unfolding is_camel camel_into

  is_camel-IsFixed : (m : Fields) → is_camel m ≡ true → IsFixed snake_to_camel camel_value m
  is_camel-IsFixed end h = tt
  is_camel-IsFixed (field k v m) h = (
    snake_to_camel_absent k (ground arith),
    camel_value_fixed v (ground arith),
    is_camel-IsFixed m (ground arith),
  )

  camel_value_fixed : (v : Value) → is_camel_value v ≡ true → camel_value v ≡ v
  camel_value_fixed null h = refl
  camel_value_fixed (bool b) h = refl
  camel_value_fixed (num n) h = refl
  camel_value_fixed (str s) h = refl
  camel_value_fixed (arr xs) h = refl
  camel_value_fixed (obj m) h = ap obj (
      camel_into-rename m end
      ∙ rename_fixed snake_to_camel camel_value m (is_camel-IsFixed m h) (is_camel-IsDistinct m h))

-- The converted map is in normal form: at every depth that objects reach, no key has an underscore
-- and no key stands twice.
pub snake_to_camel_keys-is_camel : (m : Fields) → is_camel (snake_to_camel_keys m) ≡ true
unfolding snake_to_camel_keys is_camel
snake_to_camel_keys-is_camel m = camel_into-is_camel m end refl

-- Converting a converted map changes nothing.
pub snake_to_camel_keys_idem :
    (m : Fields) → snake_to_camel_keys (snake_to_camel_keys m) ≡ snake_to_camel_keys m
unfolding snake_to_camel_keys
snake_to_camel_keys_idem m =
    let normal = snake_to_camel_keys-is_camel m in
    camel_into-rename (camel_into m end) end
    ∙ rename_fixed snake_to_camel camel_value (camel_into m end)
        (is_camel-IsFixed (camel_into m end) normal) (is_camel-IsDistinct (camel_into m end) normal)
