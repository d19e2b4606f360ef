-- ===== src/Cache/Lru/Methods.antt =====
-- What `Get` and `Set` do on a valid cache, outcome by outcome, and that they keep it valid.
use mcp_multiplexer.Base.{
  ℕ, suc, ◌+◌, ◌≤◌, ◌<◌, Text, text_eq, nat_eq, true, false, Option, none, some, ◌∷◌, ◌≡◌, refl, ap,
  ltb, lookup, insert, remove, arith, Bool-cases, Option-cases, inl, inr, length, length-remove, ℤ,
  pos, leb_ℤ, pos_part,
}
use mcp_multiplexer.Tool.{CallResult, clone-eq_self}
use mcp_multiplexer.Cache.Lru.{
  Entry, Lru, new_lru_cache, get, set, set_indexed, evict, update_element,
}
use mcp_multiplexer.Cache.Lru.Valid.{
  IsValid, remove-IsList, remove-Indexes, front-IsList, front-Indexes, push-IsList, push-Indexes,
  evict-IsValid,
}
use mcp_multiplexer.Cache.Lru.Elements.{
  lookup_front, id_of, id_of_member, id_of_entry, insert_front, move_to_front_found,
}

-- The empty cache is valid.
pub new_lru_cache-IsValid : (size : ℕ) → 0 < size → IsValid (new_lru_cache size)
unfolding new_lru_cache lookup id_of
new_lru_cache-IsValid size h = record {
  wf = record { elements = refl; entries = refl; fresh = tt };
  indexed = λ k. refl;
  bounded = omega arith;
  positive = h;
}

module _ (c : Lru) (key : Text) (v : IsValid c) where
  length-front :
      (id : ℕ) → id_of key c.list ≡ some id → suc (length (remove id c.list)) ≡ length c.list
  length-front id found = length-remove id c.list v.wf.elements (id_of_member key c.list id found)

  -- The three outcomes of `Get`: no element, an expired element, a hit.
  pub get_miss : (now : ℕ) → id_of key c.list ≡ none → get c key now ≡ (c, none)
  unfolding get
  get_miss now h = rw (v.indexed key, h, get) refl

  pub get_expired :
      (now id : ℕ) (e : Entry)
      → id_of key c.list ≡ some id
      → lookup id c.list ≡ some e
      → e.expires_at < now
      → get c key now ≡ (record c { list = remove id c.list; index = remove key c.index }, none)
  unfolding get
  get_expired now id e h at late = rw (v.indexed key, h, get, at) (ground arith)

  pub get_hit :
      (now id : ℕ) (e : Entry)
      → id_of key c.list ≡ some id
      → lookup id c.list ≡ some e
      → now ≤ e.expires_at
      → get c key now ≡ (record c { list = (id, e) ∷ remove id c.list }, e.value)
  unfolding get
  get_hit now id e h at live =
      rw (v.indexed key, h, get, at)
        (ground (arith, move_to_front_found id c.list e at, clone-eq_self e.value))

  -- `Get` keeps the invariant.
  pub get-IsValid : (now : ℕ) → IsValid (get c key now).0
  get-IsValid now = elim (Option-cases (id_of key c.list)) [
    | inl gone ↦ rw (get_miss now gone) v
    | inr (id, found) ↦
        let (e, at, same, seen) = id_of_entry key c.list id v.wf.elements found in
        elim (Bool-cases (ltb e.expires_at now)) [
          | inl late ↦ rw (get_expired now id e found at (ground arith)) (record {
            wf = remove-IsList key c.list id c.next v.wf found;
            indexed = remove-Indexes key c.list id c.next v.wf found c.index v.indexed;
            bounded = omega (arith, v.bounded, length-front id found);
            positive = v.positive;
          })
          | inr live ↦ rw (get_hit now id e found at (ground arith)) (record {
            wf = front-IsList key c.list id c.next v.wf found e same;
            indexed = front-Indexes key c.list id c.next v.wf found e c.index same v.indexed;
            bounded = omega (arith, v.bounded, length-front id found);
            positive = v.positive;
          })
        ]
  ]

  -- The three outcomes of `Set` with a value: no positive time to live, a key that is held, a new key.
  pub set_skipped :
      (r : CallResult) (ttl : ℤ) (now : ℕ)
      → leb_ℤ ttl (pos 0) ≡ true
      → set c key (some r) ttl now ≡ c
  unfolding set
  set_skipped r ttl now h = rw h

  pub set_held :
      (r : CallResult) (ttl : ℤ) (now id : ℕ) (e : Entry)
      → leb_ℤ ttl (pos 0) ≡ false
      → id_of key c.list ≡ some id
      → lookup id c.list ≡ some e
      → set c key (some r) ttl now ≡ record c {
        list =
            (id, record e { value = some r; expires_at = now + pos_part ttl }) ∷ remove id c.list;
      }
  unfolding set
  set_held r ttl now id e h found at =
      rw (h, v.indexed key, found, set_indexed, move_to_front_found id c.list e at)
        (rw (lookup_front id e (remove id c.list), clone-eq_self (some r), update_element)
          (ap (λ l. record c { list = l }) (insert_front id e _ (remove id c.list))))

  pub set_new :
      (r : CallResult) (ttl : ℤ) (now : ℕ)
      → leb_ℤ ttl (pos 0) ≡ false
      → id_of key c.list ≡ none
      → set c key (some r) ttl now
        ≡ evict (record c {
          list =
              (c.next, record { key = key; value = some r; expires_at = now + pos_part ttl })
              ∷ c.list;
          index = insert key c.next c.index;
          next = suc c.next;
        })
  unfolding set
  set_new r ttl now h found = rw (h, v.indexed key, found, set_indexed, clone-eq_self (some r))

  -- `Set` keeps the invariant.
  pub set-IsValid :
      (value : Option CallResult) (ttl : ℤ) (now : ℕ) → IsValid (set c key value ttl now)
  unfolding set
  set-IsValid none ttl now = v
  set-IsValid (some r) ttl now = elim (Bool-cases (leb_ℤ ttl (pos 0))) [
    | inl skip ↦ rw (set_skipped r ttl now skip) v
    | inr store ↦ elim (Option-cases (id_of key c.list)) [
      | inl gone ↦
          let e : Entry = record { key = key; value = some r; expires_at = now + pos_part ttl } in
          rw (set_new r ttl now store gone) (
            evict-IsValid
              (record c {
                list = (c.next, e) ∷ c.list;
                index = insert key c.next c.index;
                next = suc c.next;
              })
              (push-IsList c.list c.next e v.wf gone)
              (push-Indexes c.list c.next e v.wf gone c.index v.indexed) v.positive
              (omega (arith, v.bounded)))
      | inr (id, found) ↦
          let (e, at, same, seen) = id_of_entry key c.list id v.wf.elements found in
          let e' : Entry = record e { value = some r; expires_at = now + pos_part ttl } in
          rw (set_held r ttl now id e store found at) (record {
            wf = front-IsList key c.list id c.next v.wf found e' same;
            indexed = front-Indexes key c.list id c.next v.wf found e' c.index same v.indexed;
            bounded = omega (arith, v.bounded, length-front id found);
            positive = v.positive;
          })
    ]
  ]
