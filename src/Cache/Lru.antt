-- ===== src/Cache/Lru.antt =====
-- `lruCache` of cache.go. `container/list` is a list of elements, front first; an element is its
-- identity (the pointer `*list.Element`) and its entry. The methods hold the mutex throughout.
pub mod Elements
pub mod Valid
pub mod Methods
pub mod Refinement
pub mod History
pub mod Survival
use mcp_multiplexer.Base.{
  ℕ, suc, ◌+◌, Text, text_eq, nat_eq, ◌==◌, if◌then◌else◌, Bool, ltb, ltb_ℤ, leb_ℤ, ℤ, pos,
  pos_part, Option, none, some, List, [], ◌∷◌, length, lookup, insert, remove,
}
use mcp_multiplexer.Tool.{CallResult, clone}

pub record Entry : Type 0 where
  pub key : Text
  pub value : Option CallResult
  pub expires_at : ℕ

-- `next` is the identity of the element that is allocated next.
pub record Lru : Type 0 where
  pub list : List (ℕ × Entry)
  pub index : List (Text × ℕ)
  pub size : ℕ
  pub next : ℕ

unfoldable pub new_lru_cache : ℕ → Lru
new_lru_cache size = record { list = []; index = []; size = size; next = 0 }

-- `(*list.List).MoveToFront`
unfoldable pub move_to_front : ℕ → List (ℕ × Entry) → List (ℕ × Entry)
move_to_front id l = elim (lookup id l) [ none ↦ l | some e ↦ (id, e) ∷ remove id l ]

-- `(*list.List).Back`
unfoldable pub back : List (ℕ × Entry) → Option (ℕ × Entry)
back [] = none
back (x ∷ []) = some x
back (x ∷ y ∷ l) = back (y ∷ l)

get_entry : Lru → Text → ℕ → ℕ → Entry → Lru × Option CallResult
get_entry c key now id e =
    if ltb e.expires_at now
    then (record c { list = remove id c.list; index = remove key c.index }, none)
    else (record c { list = move_to_front id c.list }, clone e.value)

-- An indexed element stands in the list (`Valid.antt`), so the second case does not arise.
get_element : Lru → Text → ℕ → ℕ → Option Entry → Lru × Option CallResult
unfolding get_entry
get_element c key now id (some e) = get_entry c key now id e
get_element c key now id none = (c, none)

pub get_indexed : Lru → Text → ℕ → Option ℕ → Lru × Option CallResult
unfolding get_element
get_indexed c key now none = (c, none)
get_indexed c key now (some id) = get_element c key now id (lookup id c.list)

-- `Get`, with the reading of the clock as an argument.
unfoldable pub get : Lru → Text → ℕ → Lru × Option CallResult
unfolding get_indexed
get c key now = get_indexed c key now (lookup key c.index)

-- The entry `e` of an element is written through the pointer.
update_element : List (ℕ × Entry) → ℕ → Option CallResult → ℕ → Option Entry → List (ℕ × Entry)
update_element l id value expires (some e) =
    insert id (record e { value = value; expires_at = expires }) l
update_element l id value expires none = l

drop_back : Lru → Option (ℕ × Entry) → Lru
drop_back c none = c
drop_back c (some (id, e)) = record c { list = remove id c.list; index = remove e.key c.index }

unfoldable pub evict : Lru → Lru
unfolding drop_back
evict c = if ltb c.size (length c.list) then drop_back c (back c.list) else c

set_indexed : Lru → Text → Option CallResult → ℕ → Option ℕ → Lru
unfolding update_element
set_indexed c key value expires (some id) =
    let l = move_to_front id c.list in
    record c { list = update_element l id (clone value) expires (lookup id l) }
set_indexed c key value expires none = evict (record c {
  list = (c.next, record { key = key; value = clone value; expires_at = expires }) ∷ c.list;
  index = insert key c.next c.index;
  next = suc c.next;
})

-- `Set`, with the reading of the clock as an argument; `none` is a nil value.
unfoldable pub set : Lru → Text → Option CallResult → ℤ → ℕ → Lru
unfolding set_indexed
set c key none ttl now = c
set c key (some value) ttl now =
    if leb_ℤ ttl (pos 0)
    then c
    else set_indexed c key (some value) (now + pos_part ttl) (lookup key c.index)
