-- ===== src/Cache/Lru/Elements.antt =====
-- The list of elements seen as a map from keys: which element holds a key, and what the list
-- operations do to that view.
use mcp_multiplexer.Base.{
  ℕ, Text, text_eq, nat_eq, text_beq_iff, ◌==◌, if◌then◌else◌, true, false, Option, none, some,
  List, [], ◌∷◌, ◌≡◌, refl, ap, sym, subst, lookup, insert, remove, length, suc, keys, contains,
  distinct, arith, Bool-cases, inl, inr, remove_absent,
}
use mcp_multiplexer.Tool.{CallResult}
use mcp_multiplexer.Cache.Lru.{Entry, move_to_front, back}

-- What a cache stores under a key: the value and its expiry.
abbrev pub Stored : Type 0
Stored = Option CallResult × ℕ

-- The entries of the list, most recently used first.
abbrev pub view : List (ℕ × Entry) → List (Text × Stored)
view [] = []
view ((id, e) ∷ l) = (e.key, (e.value, e.expires_at)) ∷ view l

-- The element that holds a key.
unfoldable pub id_of : Text → List (ℕ × Entry) → Option ℕ
id_of k [] = none
id_of k ((id, e) ∷ l) = if e.key == k then some id else id_of k l

pub id_of_absent :
    (k : Text) (l : List (ℕ × Entry)) → id_of k l ≡ none → contains k (keys (view l)) ≡ false
unfolding id_of
id_of_absent k [] h = refl
id_of_absent k ((id, e) ∷ l) h = ground (arith, id_of_absent k l)

pub id_of_member :
    (k : Text) (l : List (ℕ × Entry)) (id : ℕ) → id_of k l ≡ some id → contains id (keys l) ≡ true
unfolding id_of
id_of_member k [] id h = ground arith
id_of_member k ((i, e) ∷ l) id h = ground (arith, id_of_member k l id)

-- With distinct elements, the indexed element is in the list, has the key, and holds what the view
-- shows.
pub id_of_entry :
    (k : Text) (l : List (ℕ × Entry)) (id : ℕ)
    → distinct (keys l) ≡ true
    → id_of k l ≡ some id
    → (e : Entry) × (lookup id l ≡ some e)
      × (e.key ≡ k)
      × (lookup k (view l) ≡ some (e.value, e.expires_at))
unfolding id_of lookup
id_of_entry k [] id d h = absurd (ground arith)
id_of_entry k ((i, e) ∷ l) id d h = elim (Bool-cases (e.key == k)) [
  | inl here ↦ (e, ground arith, (text_beq_iff e.key k).0 here, rw here)
  | inr there ↦
      let found : id_of k l ≡ some id = ground arith in
      let (e', at, same, seen) = id_of_entry k l id (ground arith) found in
      (e', ground (arith, id_of_member k l id found), same, rw there seen)
]

-- With distinct elements and distinct keys, removing the element that holds a key removes the key.
pub view-remove :
    (k : Text) (l : List (ℕ × Entry)) (id : ℕ)
    → distinct (keys l) ≡ true
    → distinct (keys (view l)) ≡ true
    → id_of k l ≡ some id
    → view (remove id l) ≡ remove k (view l)
unfolding id_of remove
view-remove k [] id d u h = absurd (ground arith)
view-remove k ((i, e) ∷ l) id d u h = elim (Bool-cases (e.key == k)) [
  | inl here ↦ ground (arith, text_beq_iff e.key k, remove_absent id l, remove_absent k (view l))
  | inr there ↦
      let found : id_of k l ≡ some id = ground arith in
      ground (arith, id_of_member k l id found, view-remove k l id)
]

pub id_of-none :
    (k : Text) (l : List (ℕ × Entry)) → contains k (keys (view l)) ≡ false → id_of k l ≡ none
unfolding id_of
id_of-none k [] h = refl
id_of-none k ((id, e) ∷ l) h = ground (arith, id_of-none k l)

pub id_of-remove :
    (k j : Text) (l : List (ℕ × Entry)) (id : ℕ)
    → distinct (keys l) ≡ true
    → distinct (keys (view l)) ≡ true
    → id_of k l ≡ some id
    → id_of j (remove id l) ≡ (if k == j then none else id_of j l)
unfolding id_of remove
id_of-remove k j [] id d u h = absurd (ground arith)
id_of-remove k j ((i, e) ∷ l) id d u h = elim (Bool-cases (e.key == k)) [
  | inl here ↦
      let same : e.key ≡ k = (text_beq_iff e.key k).0 here in
      ground (arith, same, remove_absent id l, text_beq_iff k j, text_beq_iff k k, id_of-none k l)
  | inr there ↦
      let found : id_of k l ≡ some id = ground arith in
      ground (
        arith,
        id_of_member k l id found,
        id_of-remove k j l id,
        text_beq_iff k j,
        text_beq_iff e.key j,
        text_beq_iff e.key k,
      )
]

-- Writing through the pointer of the front element.
pub insert_front :
    (id : ℕ) (e e' : Entry) (l : List (ℕ × Entry)) → insert id e' ((id, e) ∷ l) ≡ (id, e') ∷ l
unfolding insert
insert_front id e e' l = ground arith

pub move_to_front_found :
    (id : ℕ) (l : List (ℕ × Entry)) (e : Entry)
    → lookup id l ≡ some e
    → move_to_front id l ≡ (id, e) ∷ remove id l
unfolding move_to_front
move_to_front_found id l e h = rw (h, move_to_front)

pub length-view : (l : List (ℕ × Entry)) → length (view l) ≡ length l
length-view [] = refl
length-view (x ∷ l) = ap suc (length-view l)

pub id_of_key :
    (k : Text) (l : List (ℕ × Entry)) (id : ℕ)
    → id_of k l ≡ some id
    → contains k (keys (view l)) ≡ true
unfolding id_of
id_of_key k [] id h = ground arith
id_of_key k ((i, e) ∷ l) id h = ground (arith, id_of_key k l id)

-- The element at the back is the one that holds its key.
pub id_of-back :
    (l : List (ℕ × Entry)) (id : ℕ) (e : Entry)
    → distinct (keys (view l)) ≡ true
    → back l ≡ some (id, e)
    → id_of e.key l ≡ some id
unfolding id_of back
id_of-back [] id e u h = ground arith
id_of-back (x ∷ []) id e u h =
    let same : x ≡ (id, e) = cc in
    subst (λ y. id_of e.key (y ∷ []) ≡ some id) (sym same)
      (ground (arith, text_beq_iff e.key e.key))
id_of-back ((i, d) ∷ y ∷ l) id e u h =
    let found : id_of e.key (y ∷ l) ≡ some id = id_of-back (y ∷ l) id e (ground arith) h in
    ground (arith, found, id_of_key e.key (y ∷ l) id found, text_beq_iff d.key e.key)

back_nonempty : (x : ℕ × Entry) (l : List (ℕ × Entry)) → (y : ℕ × Entry) × (back (x ∷ l) ≡ some y)
unfolding back
back_nonempty x [] = (x, refl)
back_nonempty x (y ∷ l) = back_nonempty y l

pub length-back-none : (l : List (ℕ × Entry)) → back l ≡ none → length l ≡ 0
length-back-none [] h = refl
length-back-none (x ∷ l) h = let (y, e) = back_nonempty x l in absurd (ground (arith, e))

pub lookup_front : (id : ℕ) (e : Entry) (l : List (ℕ × Entry)) → lookup id ((id, e) ∷ l) ≡ some e
unfolding lookup
lookup_front id e l = ground arith
