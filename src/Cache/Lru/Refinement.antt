-- ===== src/Cache/Lru/Refinement.antt =====
-- The LRU against its abstract specification: a list of keys with what they store, most recently
-- used first, with no elements and no index.
use mcp_multiplexer.Base.{
  ℕ, suc, ◌+◌, ◌≤◌, Text, text_eq, text_beq_iff, ◌==◌, if◌then◌else◌, ltb, true, false, Option,
  none, some, List, [], ◌∷◌, ◌≡◌, refl, ap, ap₂, sym, ◌∙◌, zero, subst, insert, lookup, remove,
  take, take_all, keys, distinct, arith, Bool-cases, Option-cases, inl, inr, length, length-remove,
  ℤ, pos, leb_ℤ, pos_part, lookup_absent, remove_absent,
}
use mcp_multiplexer.Tool.{CallResult}
use mcp_multiplexer.Cache.Lru.{Entry, Lru, get, set, evict, back}
use mcp_multiplexer.Cache.Lru.Elements.{
  Stored, view, id_of, id_of_absent, id_of_entry, view-remove, id_of-back, id_of_key, length-view,
  length-back-none,
}
use mcp_multiplexer.Cache.Lru.Valid.{IsValid, IsList, push-IsList}
use mcp_multiplexer.Cache.Lru.Methods.{
  get_miss, get_expired, get_hit, set_skipped, set_held, set_new,
}

abbrev pub View : Type 0
View = List (Text × Stored)

-- `Get` on the abstract cache: an expired entry is dropped, a live one becomes the most recent.
unfoldable pub spec_get : Text → ℕ → View → View × Option CallResult
spec_get key now l = elim (lookup key l) [
  | none ↦ (l, none)
  | some (v, expires) ↦
      if ltb expires now then (remove key l, none) else ((key, (v, expires)) ∷ remove key l, v)
]

-- `Set` on the abstract cache: the key becomes the most recent, and the first `size` entries stay.
unfoldable pub spec_set : ℕ → Text → Option CallResult → ℤ → ℕ → View → View
spec_set size key none ttl now l = l
spec_set size key (some r) ttl now l =
    if leb_ℤ ttl (pos 0) then l else take size ((key, (some r, now + pos_part ttl)) ∷ remove key l)

-- `Get` on a valid cache returns what the specification returns, and leaves what it leaves.
pub get-refines :
    (c : Lru) (key : Text) (now : ℕ)
    → IsValid c
    → (view (get c key now).0.list ≡ (spec_get key now (view c.list)).0)
      × ((get c key now).1 ≡ (spec_get key now (view c.list)).1)
unfolding spec_get
get-refines c key now v = elim (Option-cases (id_of key c.list)) [
  | inl gone ↦
      let absent : lookup key (view c.list) ≡ none =
        lookup_absent key (view c.list) (id_of_absent key c.list gone) in
      rw (get_miss c key v now gone, absent, spec_get) (refl, refl)
  | inr (id, found) ↦
      let (e, at, same, seen) = id_of_entry key c.list id v.wf.elements found in
      let gone = view-remove key c.list id v.wf.elements v.wf.entries found in
      elim (Bool-cases (ltb e.expires_at now)) [
        | inl late ↦
            rw (get_expired c key v now id e found at (ground arith), seen, spec_get, late)
              (gone, refl)
        | inr live ↦
            rw (get_hit c key v now id e found at (ground arith), seen, spec_get, live)
              (ap₂ (λ k (l : View). (k, (e.value, e.expires_at)) ∷ l) same gone, refl)
      ]
]

-- Dropping the element at the back keeps all but one of the entries.
remove-back :
    (n : ℕ) (l : List (ℕ × Entry)) (id : ℕ) (e : Entry)
    → distinct (keys (view l)) ≡ true
    → back l ≡ some (id, e)
    → length l ≡ suc n
    → remove e.key (view l) ≡ take n (view l)
unfolding remove back
remove-back n [] id e u h b = absurd (ground arith)
remove-back zero (x ∷ []) id e u h b =
    let same : x ≡ (id, e) = cc in
    subst (λ y. remove e.key (view (y ∷ [])) ≡ []) (sym same)
      (ground (arith, text_beq_iff e.key e.key))
remove-back (suc n) (x ∷ []) id e u h b = absurd (omega arith)
remove-back zero (x ∷ y ∷ l) id e u h b = absurd (omega arith)
remove-back (suc n) ((i, d) ∷ y ∷ l) id e u h b =
    let found : id_of e.key (y ∷ l) ≡ some id = id_of-back (y ∷ l) id e (ground arith) h in
    let held = id_of_key e.key (y ∷ l) id found in
    let other : (d.key == e.key) ≡ false = ground (arith, text_beq_iff d.key e.key) in
    rw other (
      ap (◌∷◌ (d.key, (d.value, d.expires_at)))
        (remove-back n (y ∷ l) id e (ground arith) h (omega arith)))

evict-refines :
    (c : Lru)
    → IsList c.list c.next
    → length c.list ≤ suc c.size
    → view (evict c).list ≡ take c.size (view c.list)
unfolding evict
evict-refines c wf b = elim (Bool-cases (ltb c.size (length c.list))) [
  | inr fits ↦
      rw (fits, evict) (sym (take_all c.size (view c.list) (ground (arith, length-view c.list))))
  | inl over ↦ elim (Option-cases (back c.list)) [
    | inl empty ↦ absurd (ground (arith, length-back-none c.list empty))
    | inr ((id, e), last) ↦
        let found : id_of e.key c.list ≡ some id = id_of-back c.list id e wf.entries last in
        rw (over, last, evict)
          (view-remove e.key c.list id wf.elements wf.entries found
            ∙ remove-back c.size c.list id e wf.entries last (ground arith))
  ]
]

-- `Set` on a valid cache stores what the specification stores: nothing for a nil value or a time to
-- live that is not positive; otherwise the key becomes the most recent, and only the least recent
-- entry is evicted.
pub set-refines :
    (c : Lru) (key : Text) (value : Option CallResult) (ttl : ℤ) (now : ℕ)
    → IsValid c
    → view (set c key value ttl now).list ≡ spec_set c.size key value ttl now (view c.list)
unfolding spec_set
set-refines c key none ttl now v = unfold set in refl
set-refines c key (some r) ttl now v = elim (Bool-cases (leb_ℤ ttl (pos 0))) [
  | inl skip ↦ rw (set_skipped c key v r ttl now skip, skip) refl
  | inr store ↦ elim (Option-cases (id_of key c.list)) [
    | inl gone ↦
        let e : Entry = record { key = key; value = some r; expires_at = now + pos_part ttl } in
        rw
          (
            set_new c key v r ttl now store gone,
            store,
            remove_absent key (view c.list) (id_of_absent key c.list gone),
          )
          (evict-refines
            (record c {
              list = (c.next, e) ∷ c.list;
              index = insert key c.next c.index;
              next = suc c.next;
            })
            (push-IsList c.list c.next e v.wf gone) (omega (arith, v.bounded)))
    | inr (id, found) ↦
        let (e, at, same, seen) = id_of_entry key c.list id v.wf.elements found in
        let gone = view-remove key c.list id v.wf.elements v.wf.entries found in
        let stored : Stored = (some r, now + pos_part ttl) in
        let count : length ((key, stored) ∷ remove key (view c.list)) ≡ length (view c.list) =
          length-remove key (view c.list) v.wf.entries (id_of_key key c.list id found) in
        rw (set_held c key v r ttl now id e store found at, store)
          (ap₂ (λ k (l : View). (k, stored) ∷ l) same gone
            ∙ sym (take_all c.size _ (omega (arith, count, length-view c.list, v.bounded))))
  ]
]
