-- ===== src/Json/Rename.antt =====
-- The loop shape `for k, v := range m { out[f(k)] = g(v) }` of transform.go: what can be read
-- from its result, when it does not depend on the order of the fields, and when it changes nothing.
use mcp_multiplexer.Base.{
  Text, text_eq, ◌==◌, ◌≡◌, refl, sym, ap, true, false, some, All, ◌∙◌, map, contains, distinct,
  text_beq_iff, arith, Bool-cases, inl, inr,
}
use mcp_multiplexer.Json.Access.{
  get, put, field_keys, IsDistinct, get-put, put-IsDistinct, snoc, put_absent,
}
use mcp_multiplexer.Json.{Value, Fields, end, field}

-- The loop, `out` being the map built so far.
module _ (f : Text → Text) (g : Value → Value) where
  unfoldable pub rename : Fields → Fields → Fields
  rename end out = out
  rename (field k v m) out = rename m (put (f k) (g v) out)

  -- A key that no field is renamed to keeps its value.
  pub get-rename_other :
      (j : Text) (m out : Fields)
      → contains j (map f (field_keys m)) ≡ false
      → get j (rename m out) ≡ get j out
  unfolding rename
  get-rename_other j end out h = refl
  get-rename_other j (field k v m) out h =
      ground (arith, get-rename_other j m (put (f k) (g v) out), get-put (f k) j (g v) out)

  -- Where no two keys are renamed to one, each field arrives under its new key.
  pub get-rename :
      (k : Text) (m out : Fields) {v : Value}
      → distinct (map f (field_keys m)) ≡ true
      → get k m ≡ some v
      → get (f k) (rename m out) ≡ some (g v)
  unfolding rename get
  get-rename k end out d h = absurd (ground arith)
  get-rename k (field i w m) out d h = elim (Bool-cases (i == k)) [
    | inl e ↦
        let same : i ≡ k = (text_beq_iff i k).0 e in
        ground (
          arith,
          same,
          get-rename_other (f i) m (put (f i) (g w) out),
          get-put (f i) (f i) (g w) out,
          text_beq_iff (f i) (f i),
        )
    | inr e ↦ get-rename k m (put (f i) (g w) out) (ground arith) (ground arith)
  ]

  pub rename-IsDistinct : (m out : Fields) → IsDistinct out → IsDistinct (rename m out)
  unfolding rename
  rename-IsDistinct end out h = h
  rename-IsDistinct (field k v m) out h =
      rename-IsDistinct m (put (f k) (g v) out) (put-IsDistinct (f k) (g v) out h)

  key_of_contains :
      (j : Text) (m : Fields)
      → contains j (map f (field_keys m)) ≡ true
      → (k : Text) × (v : Value) × (get k m ≡ some v) × (f k ≡ j)
  unfolding get
  key_of_contains j end h = absurd (ground arith)
  key_of_contains j (field i w m) h = elim (Bool-cases (f i == j)) [
    | inl e ↦ (i, w, ground (arith, text_beq_iff i i), (text_beq_iff (f i) j).0 e)
    | inr e ↦
        let (k, v, found, same) = key_of_contains j m (ground arith) in
        elim (Bool-cases (i == k)) [
          | inl e' ↦ (i, w, ground (arith, text_beq_iff i i), ground (arith, text_beq_iff i k))
          | inr e' ↦ (k, v, rw e' found, same)
        ]
  ]

  rename_order_found :
      (m n : Fields)
      → distinct (map f (field_keys m)) ≡ true
      → distinct (map f (field_keys n)) ≡ true
      → ((k : Text) → get k m ≡ get k n)
      → (j : Text) → contains j (map f (field_keys m)) ≡ true
      → get j (rename m end) ≡ get j (rename n end)
  rename_order_found m n dm dn same j h =
      let (k, v, found, e) = key_of_contains j m h in
      let left : get (f k) (rename m end) ≡ some (g v) = get-rename k m end dm found in
      let right : get (f k) (rename n end) ≡ some (g v) =
        get-rename k n end dn (sym (same k) ∙ found) in
      rw (← e) (left ∙ sym right)

  -- Maps with the same entries are renamed to maps with the same entries, in whatever order the
  -- two loops visit them, where no two keys are renamed to one.
  pub rename_order :
      (m n : Fields)
      → distinct (map f (field_keys m)) ≡ true
      → distinct (map f (field_keys n)) ≡ true
      → ((k : Text) → get k m ≡ get k n)
      → (j : Text) → get j (rename m end) ≡ get j (rename n end)
  unfolding get
  rename_order m n dm dn same j = elim (Bool-cases (contains j (map f (field_keys m)))) [
    | inl h ↦ rename_order_found m n dm dn same j h
    | inr h ↦ elim (Bool-cases (contains j (map f (field_keys n)))) [
      | inl h' ↦ sym (rename_order_found n m dn dm (λ k. sym (same k)) j h')
      | inr h' ↦ get-rename_other j m end h ∙ sym (get-rename_other j n end h')
    ]
  ]

  -- The loop writes back what it reads.
  abbrev pub IsFixed : Fields → Type 0
  IsFixed end = Unit
  IsFixed (field k v m) = (f k ≡ k) × (g v ≡ v) × IsFixed m

abbrev append_fields : Fields → Fields → Fields
append_fields end n = n
append_fields (field k v m) n = field k v (append_fields m n)

abbrev Disjoint : Fields → Fields → Type 0
Disjoint out m = All (λ k. contains k (field_keys out) ≡ false) (field_keys m)

snoc-append :
    (out m : Fields) (k : Text) (v : Value)
    → append_fields (snoc out k v) m ≡ append_fields out (field k v m)
snoc-append end m k v = refl
snoc-append (field i w out) m k v = ap (field i w) (snoc-append out m k v)

append-end : (m : Fields) → append_fields m end ≡ m
append-end end = refl
append-end (field k v m) = ap (field k v) (append-end m)

contains-snoc :
    (j k : Text) (v : Value) (out : Fields)
    → contains j (field_keys out) ≡ false
    → (k == j) ≡ false
    → contains j (field_keys (snoc out k v)) ≡ false
contains-snoc j k v end h e = ground arith
contains-snoc j k v (field i w out) h e = ground (arith, contains-snoc j k v out)

Disjoint-snoc :
    (k : Text) (v : Value) (out m : Fields)
    → Disjoint out m
    → contains k (field_keys m) ≡ false
    → Disjoint (snoc out k v) m
Disjoint-snoc k v out end d h = tt
Disjoint-snoc k v out (field j w m) d h = (
  contains-snoc j k v out d.0 (ground (arith, text_beq_iff j k, text_beq_iff k j)),
  Disjoint-snoc k v out m d.1 (ground arith),
)

module _ (f : Text → Text) (g : Value → Value) where
  rename_fixed_into :
      (m out : Fields)
      → IsFixed f g m
      → IsDistinct m
      → Disjoint out m
      → rename f g m out ≡ append_fields out m
  unfolding rename
  rename_fixed_into end out h d s = sym (append-end out)
  rename_fixed_into (field k v m) out h d s =
      rw (h.0, h.1, put_absent k v out s.0)
        (rename_fixed_into m (snoc out k v) h.2 (ground arith)
            (Disjoint-snoc k v out m s.1 (ground arith))
          ∙ snoc-append out m k v)

  Disjoint-end : (m : Fields) → Disjoint end m
  Disjoint-end end = tt
  Disjoint-end (field k v m) = (refl, Disjoint-end m)

  -- A map with distinct keys whose entries the loop writes back unchanged is returned unchanged.
  pub rename_fixed : (m : Fields) → IsFixed f g m → IsDistinct m → rename f g m end ≡ m
  rename_fixed m h d = rename_fixed_into m end h d (Disjoint-end m)
