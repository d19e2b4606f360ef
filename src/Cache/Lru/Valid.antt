-- ===== src/Cache/Lru/Valid.antt =====
-- The invariant of the LRU: the index names exactly the elements of the list, no key is held
-- twice, and the list is never longer than the size. Every method keeps it.
use mcp_multiplexer.Base.{
  ℕ, suc, ◌≤◌, ◌<◌, Text, text_eq, nat_eq, text_beq_iff, nat_beq_iff, ◌==◌, if◌then◌else◌, true,
  false, Option, none, some, List, [], ◌∷◌, ◌≡◌, refl, ap, sym, ◌∙◌, distinct-cons,
  contains-remove_self, ltb, All-contains, lookup, insert, remove, keys, contains, distinct, arith,
  Bool-cases, Option-cases, inl, inr, lookup-remove, lookup-insert, contains-remove,
  distinct-remove, length, length-remove, All, All-remove,
}
use mcp_multiplexer.Cache.Lru.{Entry, Lru, back, evict}
use mcp_multiplexer.Cache.Lru.Elements.{
  id_of-back, length-back-none, view, id_of, id_of_absent, id_of_member, view-remove, id_of-remove,
}

-- The list by itself: no element and no key twice, and no element that is yet to be allocated.
pub record IsList (l : List (ℕ × Entry)) (next : ℕ) : Type 0 where
  pub elements : distinct (keys l) ≡ true
  pub entries : distinct (keys (view l)) ≡ true
  pub fresh : All (λ id. id < next) (keys l)

abbrev pub Indexes : List (Text × ℕ) → List (ℕ × Entry) → Type 0
Indexes index l = (k : Text) → lookup k index ≡ id_of k l

pub record IsValid (c : Lru) : Type 0 where
  pub wf : IsList c.list c.next
  pub indexed : Indexes c.index c.list
  pub bounded : length c.list ≤ c.size
  pub positive : 0 < c.size

module _ (key : Text) (l : List (ℕ × Entry)) (id next : ℕ) (wf : IsList l next)
    (found : id_of key l ≡ some id) where
  pub remove-IsList : IsList (remove id l) next
  remove-IsList = record {
    elements = distinct-remove id l wf.elements;
    entries =
        rw (view-remove key l id wf.elements wf.entries found)
          (distinct-remove key (view l) wf.entries);
    fresh = All-remove (λ i. i < next) id l wf.fresh;
  }

  pub remove-Indexes :
      (index : List (Text × ℕ)) → Indexes index l → Indexes (remove key index) (remove id l)
  remove-Indexes index h k =
      lookup-remove key k index
      ∙ ap (λ (o : Option ℕ). if key == k then none else o) (h k)
      ∙ sym (id_of-remove key k l id wf.elements wf.entries found)

  -- The element, with its key unchanged, at the front.
  pub front-IsList : (e : Entry) → e.key ≡ key → IsList ((id, e) ∷ remove id l) next
  front-IsList e same = record {
    elements =
        ground
          (arith, contains-remove id id l, nat_beq_iff id id, distinct-remove id l wf.elements);
    entries =
        rw (view-remove key l id wf.elements wf.entries found, same)
          (distinct-cons key (keys (remove key (view l))) (contains-remove_self key (view l))
            (distinct-remove key (view l) wf.entries));
    fresh = (
      All-contains (λ i. i < next) id (keys l) wf.fresh (id_of_member key l id found),
      All-remove (λ i. i < next) id l wf.fresh,
    );
  }

  pub front-Indexes :
      (e : Entry) (index : List (Text × ℕ))
      → e.key ≡ key
      → Indexes index l
      → Indexes index ((id, e) ∷ remove id l)
  unfolding id_of
  front-Indexes e index same h k =
      rw (h k, same)
        (ground
          (arith, id_of-remove key k l id wf.elements wf.entries found, text_beq_iff key k, found))

fresh_absent : (n : ℕ) (ids : List ℕ) → All (λ i. i < n) ids → contains n ids ≡ false
fresh_absent n [] h = refl
fresh_absent n (i ∷ ids) h = ground (arith, fresh_absent n ids h.1)

fresh_suc : (n : ℕ) (ids : List ℕ) → All (λ i. i < n) ids → All (λ i. i < suc n) ids
fresh_suc n [] h = tt
fresh_suc n (i ∷ ids) h = (omega arith, fresh_suc n ids h.1)

-- A new element at the front.
module _ (l : List (ℕ × Entry)) (next : ℕ) (e : Entry) (wf : IsList l next)
    (new : id_of e.key l ≡ none) where
  pub push-IsList : IsList ((next, e) ∷ l) (suc next)
  push-IsList = record {
    elements = ground (arith, fresh_absent next (keys l) wf.fresh, wf.elements);
    entries = ground (arith, id_of_absent e.key l new, wf.entries);
    fresh = (omega arith, fresh_suc next (keys l) wf.fresh);
  }

  pub push-Indexes :
      (index : List (Text × ℕ))
      → Indexes index l
      → Indexes (insert e.key next index) ((next, e) ∷ l)
  unfolding id_of
  push-Indexes index h k = lookup-insert e.key k next index ∙ rw (h k) refl

-- Eviction makes room again after one element too many.
pub evict-IsValid :
    (c : Lru)
    → IsList c.list c.next
    → Indexes c.index c.list
    → 0 < c.size
    → length c.list ≤ suc c.size
    → IsValid (evict c)
unfolding evict
evict-IsValid c wf ix p b = elim (Bool-cases (ltb c.size (length c.list))) [
  | inr fits ↦
      rw (fits, evict) (record { wf = wf; indexed = ix; bounded = ground arith; positive = p })
  | inl over ↦ elim (Option-cases (back c.list)) [
    | inl empty ↦ absurd (ground (arith, length-back-none c.list empty))
    | inr ((id, e), last) ↦
        let found : id_of e.key c.list ≡ some id = id_of-back c.list id e wf.entries last in
        rw (over, last, evict)
          (record {
            wf = remove-IsList e.key c.list id c.next wf found;
            indexed = remove-Indexes e.key c.list id c.next wf found c.index ix;
            bounded =
                omega
                  (arith, length-remove id c.list wf.elements (id_of_member e.key c.list id found));
            positive = p;
          })
  ]
]
