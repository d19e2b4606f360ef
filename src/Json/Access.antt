-- ===== src/Json/Access.antt =====
-- Reads and writes of `map[string]any`.
use mcp_multiplexer.Base.{
  Text, text_eq, ◌==◌, if◌then◌else◌, ◌≡◌, refl, true, false, ◌||◌, Option, none, some, List, [],
  ◌∷◌, contains, distinct, text_beq_iff, arith,
}
use mcp_multiplexer.Json.{Value, Fields, end, field}

-- `v, ok := m[k]`
unfoldable pub get : Text → Fields → Option Value
get k end = none
get k (field j v m) = if j == k then some v else get k m

-- `m[k] = v`
unfoldable pub put : Text → Value → Fields → Fields
put k v end = field k v end
put k v (field j w m) = if j == k then field j v m else field j w (put k v m)

abbrev pub field_keys : Fields → List Text
field_keys end = []
field_keys (field k v m) = k ∷ field_keys m

abbrev pub IsDistinct : Fields → Type 0
IsDistinct m = distinct (field_keys m) ≡ true

pub get-put :
    (k j : Text) (v : Value) (m : Fields) → get j (put k v m) ≡ (if k == j then some v else get j m)
unfolding get put
get-put k j v end = refl
get-put k j v (field i w m) =
    ground (arith, text_beq_iff k j, text_beq_iff i k, text_beq_iff i j, get-put k j v m)

pub get_absent : (k : Text) (m : Fields) → contains k (field_keys m) ≡ false → get k m ≡ none
unfolding get
get_absent k end h = refl
get_absent k (field i w m) h = ground (arith, get_absent k m)

pub contains-put :
    (k j : Text) (v : Value) (m : Fields)
    → contains j (field_keys (put k v m)) ≡ ((k == j) || contains j (field_keys m))
unfolding put
contains-put k j v end = refl
contains-put k j v (field i w m) =
    ground (arith, text_beq_iff k j, text_beq_iff i k, text_beq_iff i j, contains-put k j v m)

pub put-IsDistinct : (k : Text) (v : Value) (m : Fields) → IsDistinct m → IsDistinct (put k v m)
unfolding put
put-IsDistinct k v end h = refl
put-IsDistinct k v (field i w m) h =
    ground (arith, text_beq_iff i k, text_beq_iff k i, contains-put k i v m, put-IsDistinct k v m)

-- Behind the fields `m`, the field `k`.
abbrev pub snoc : Fields → Text → Value → Fields
snoc end k v = field k v end
snoc (field j w m) k v = field j w (snoc m k v)

pub put_absent :
    (k : Text) (v : Value) (m : Fields) → contains k (field_keys m) ≡ false → put k v m ≡ snoc m k v
unfolding put
put_absent k v end h = refl
put_absent k v (field i w m) h = ground (arith, put_absent k v m)
