-- ===== src/Cache/Lru/History.antt =====
-- What a sequence of calls makes of the LRU: a hit is the last value set, still live; and a key
-- survives as many calls on other keys as there is room for.
use mcp_multiplexer.Base.{
  ℕ, zero, suc, ◌+◌, ◌≤◌, ◌<◌, Text, text_eq, text_beq_iff, ◌==◌, if◌then◌else◌, false, Option,
  none, some, List, [], ◌∷◌, ◌≡◌, refl, ap, sym, ◌∙◌, lookup, remove, take, lookup-remove, arith,
  Bool-cases, Option-cases, inl, inr, ℤ, pos, leb_ℤ, pos_part,
}
use mcp_multiplexer.Tool.{CallResult}
use mcp_multiplexer.Cache.Lru.{Lru, new_lru_cache, get, set, evict}
use mcp_multiplexer.Cache.Lru.Elements.{Stored, view}
use mcp_multiplexer.Cache.Lru.Valid.{IsValid}
use mcp_multiplexer.Cache.Lru.Methods.{new_lru_cache-IsValid, get-IsValid, set-IsValid}
use mcp_multiplexer.Cache.Lru.Refinement.{View, spec_get, spec_set, get-refines, set-refines}

-- A call, with the reading of the clock that it makes.
pub data Call : Type 0 where
  get_call : Text → ℕ → Call
  set_call : Text → Option CallResult → ℤ → ℕ → Call

unfoldable pub step : Lru → Call → Lru
step c (get_call key now) = (get c key now).0
step c (set_call key value ttl now) = set c key value ttl now

-- The cache after the calls, the most recent of which stands first.
unfoldable pub run : Lru → List Call → Lru
run c [] = c
run c (x ∷ past) = step (run c past) x

-- What the most recent effective `Set` of a key stored.
unfoldable pub last_set : Text → List Call → Option Stored
last_set k [] = none
last_set k (get_call j now ∷ past) = last_set k past
last_set k (set_call j none ttl now ∷ past) = last_set k past
last_set k (set_call j (some r) ttl now ∷ past) =
    if leb_ℤ ttl (pos 0)
    then last_set k past
    else if j == k
    then some (some r, now + pos_part ttl)
    else last_set k past

-- No call changes the size.
pub size-step : (c : Lru) (x : Call) → (step c x).size ≡ c.size
unfolding step get set evict
size-step c (get_call key now) = ground arith
size-step c (set_call key none ttl now) = refl
size-step c (set_call key (some r) ttl now) = ground arith

pub size-run : (c : Lru) (calls : List Call) → (run c calls).size ≡ c.size
unfolding run
size-run c [] = refl
size-run c (x ∷ past) = size-step (run c past) x ∙ size-run c past

step-IsValid : (c : Lru) (x : Call) → IsValid c → IsValid (step c x)
unfolding step
step-IsValid c (get_call key now) v = get-IsValid c key v now
step-IsValid c (set_call key value ttl now) v = set-IsValid c key v value ttl now

-- Every sequence of calls keeps the invariant of the cache: the index names exactly the elements of
-- the list, no key is held twice, the list is never longer than the size.
pub run-IsValid : (c : Lru) (calls : List Call) → IsValid c → IsValid (run c calls)
unfolding run
run-IsValid c [] v = v
run-IsValid c (x ∷ past) v = step-IsValid (run c past) x (run-IsValid c past v)

pub lookup-take :
    (k : Text) (n : ℕ) (l : View) {s : Stored} → lookup k (take n l) ≡ some s → lookup k l ≡ some s
unfolding lookup
lookup-take k zero l h = absurd (ground arith)
lookup-take k (suc n) [] h = h
lookup-take k (suc n) ((j, v) ∷ l) {s} h = elim (Bool-cases (j == k)) [
  | inl e ↦ ground arith
  | inr e ↦ ground (arith, lookup-take k n l {s = s})
]

-- A key is held after a call only with what the call stored, or with what was there.
spec_get_held :
    (k key : Text) (now : ℕ) (l : View) {s : Stored}
    → lookup k (spec_get key now l).0 ≡ some s
    → lookup k l ≡ some s
unfolding spec_get lookup
spec_get_held k key now l {s} h = ground (arith, lookup-remove key k l, text_beq_iff key k)

spec_set_held :
    (k key : Text) (size : ℕ) (r : CallResult) (ttl : ℤ) (now : ℕ) (l : View) {s : Stored}
    → leb_ℤ ttl (pos 0) ≡ false
    → lookup k (spec_set size key (some r) ttl now l) ≡ some s
    → (if key == k then some (some r, now + pos_part ttl) else lookup k l) ≡ some s
unfolding spec_set lookup
spec_set_held k key size r ttl now l {s} store h =
    let kept =
      lookup-take k size ((key, (some r, now + pos_part ttl)) ∷ remove key l) {s = s}
        (rw store at h) in
    ground (arith, kept, lookup-remove key k l)

-- What the cache holds under a key is what the last `Set` of the key stored.
held-last_set :
    (c : Lru) (calls : List Call) (k : Text) {s : Stored}
    → IsValid c
    → c.list ≡ []
    → lookup k (view (run c calls).list) ≡ some s
    → last_set k calls ≡ some s
unfolding run last_set step spec_set lookup
held-last_set c [] k v empty h =
    let nothing : lookup k (view []) ≡ none = unfold lookup in refl in
    ground (arith, nothing, ap (λ l. lookup k (view l)) empty)
held-last_set c (get_call j now ∷ past) k {s} v empty h = held-last_set c past k v empty (
    spec_get_held k j now (view (run c past).list)
      (rw (sym (get-refines (run c past) j now (run-IsValid c past v)).0) h))
held-last_set c (set_call j none ttl now ∷ past) k {s} v empty h =
    held-last_set c past k v empty (unfold step set in h)
held-last_set c (set_call j (some r) ttl now ∷ past) k {s} v empty h =
    let valid = run-IsValid c past v in
    let seen : lookup k (spec_set (run c past).size j (some r) ttl now (view (run c past).list))
        ≡ some s =
      rw (sym (set-refines (run c past) j (some r) ttl now valid)) h in
    elim (Bool-cases (leb_ℤ ttl (pos 0))) [
      | inl skip ↦ rw skip (held-last_set c past k v empty (rw (skip, spec_set) at seen))
      | inr store ↦
          let kept =
            spec_set_held k j (run c past).size r ttl now (view (run c past).list) store seen in
          elim (Bool-cases (j == k)) [
            | inl e ↦ rw (store, e) (rw e at kept)
            | inr e ↦ rw (store, e) (held-last_set c past k v empty (rw e at kept))
          ]
    ]

spec_get_live :
    (k : Text) (now : ℕ) (l : View) (r : CallResult)
    → (spec_get k now l).1 ≡ some r
    → (expires : ℕ) × (lookup k l ≡ some (some r, expires)) × (now ≤ expires)
unfolding spec_get
spec_get_live k now l r h = elim (Option-cases (lookup k l)) [
  | inl gone ↦ absurd (ground (arith, gone))
  | inr ((value, expires), held) ↦ (expires, ground (arith, held), ground (arith, held))
]

-- After any calls on a new cache of positive size, a hit returns the value that the most recent `Set` of the key
-- stored, and that value has not expired.
pub get_fresh :
    (size : ℕ) (calls : List Call) (k : Text) (now : ℕ) (r : CallResult)
    → 0 < size
    → (get (run (new_lru_cache size) calls) k now).1 ≡ some r
    → (expires : ℕ) × (last_set k calls ≡ some (some r, expires)) × (now ≤ expires)
get_fresh size calls k now r p h =
    let c = new_lru_cache size in
    let v = new_lru_cache-IsValid size p in
    let (expires, held, live) =
      spec_get_live k now (view (run c calls).list) r
        (sym (get-refines (run c calls) k now (run-IsValid c calls v)).1 ∙ h) in
    (expires, held-last_set c calls k v (unfold new_lru_cache in refl) held, live)
