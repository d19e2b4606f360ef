-- ===== src/Cache/Lru/Survival.antt =====
-- The least recently used entry is the one that goes: a key that was just stored survives as many
-- calls on other keys as there is room for beside it.
use mcp_multiplexer.Base.{
  ℕ, zero, suc, ◌+◌, ◌≤◌, ◌<◌, Text, text_eq, text_beq_iff, ◌==◌, ltb, false, Option, none, some,
  List, [], ◌∷◌, ◌≡◌, refl, ap, ◌∙◌, lookup, remove, take, arith, Bool-cases, Option-cases, inl,
  inr, length, ℤ, pos, leb_ℤ, pos_part, All,
}
use native.Mathlib.Nat.{add-zero, add-suc}
use mcp_multiplexer.Tool.{CallResult}
use mcp_multiplexer.Cache.Lru.{Lru, get, set}
use mcp_multiplexer.Cache.Lru.Elements.{Stored, view}
use mcp_multiplexer.Cache.Lru.Valid.{IsValid}
use mcp_multiplexer.Cache.Lru.Methods.{set-IsValid}
use mcp_multiplexer.Cache.Lru.Refinement.{View, spec_get, spec_set, get-refines, set-refines}
use mcp_multiplexer.Cache.Lru.History.{
  Call, get_call, set_call, step, run, run-IsValid, size-run, size-step, lookup-take,
}

abbrev pub call_key : Call → Text
call_key (get_call j now) = j
call_key (set_call j value ttl now) = j

-- Under the first `n` entries.
abbrev Near : Text → ℕ → View → Stored → Type 0
Near k n l s = lookup k (take n l) ≡ some s

Near-suc : (k : Text) (n : ℕ) (l : View) (s : Stored) → Near k n l s → Near k (suc n) l s
unfolding lookup
Near-suc k zero l s h = absurd (ground arith)
Near-suc k (suc n) [] s h = h
Near-suc k (suc n) ((j, v) ∷ l) s h = ground (arith, Near-suc k n l s)

Near-remove :
    (k j : Text) (n : ℕ) (l : View) (s : Stored)
    → (j == k) ≡ false
    → Near k n l s
    → Near k n (remove j l) s
unfolding lookup remove
Near-remove k j zero l s ne h = h
Near-remove k j (suc n) [] s ne h = h
Near-remove k j (suc n) ((i, v) ∷ l) s ne h = elim (Bool-cases (i == j)) [
  | inl same ↦ rw same (
      Near-suc k n (remove j l) s (
        Near-remove k j n l s ne
          (ground (arith, text_beq_iff i j, text_beq_iff i k, text_beq_iff j k))))
  | inr other ↦ rw other (ground (arith, Near-remove k j n l s ne))
]

Near-front :
    (k j : Text) (n : ℕ) (l : View) (s v : Stored)
    → (j == k) ≡ false
    → Near k n l s
    → Near k (suc n) ((j, v) ∷ remove j l) s
unfolding lookup
Near-front k j n l s v ne h = rw ne (Near-remove k j n l s ne h)

take-take : (m n : ℕ) (l : View) → m ≤ n → take m (take n l) ≡ take m l
take-take zero n l h = refl
take-take (suc m) zero l h = absurd (omega arith)
take-take (suc m) (suc n) [] h = refl
take-take (suc m) (suc n) (x ∷ l) h = ap (◌∷◌ x) (take-take m n l (omega arith))

spec_get-Near :
    (k j : Text) (now n : ℕ) (l : View) (s : Stored)
    → (j == k) ≡ false
    → Near k n l s
    → Near k (suc n) (spec_get j now l).0 s
unfolding spec_get
spec_get-Near k j now n l s ne h = elim (Option-cases (lookup j l)) [
  | inl gone ↦ rw (gone, spec_get) (Near-suc k n l s h)
  | inr ((v, expires), held) ↦ elim (Bool-cases (ltb expires now)) [
    | inl late ↦
        rw (held, spec_get, late) (Near-suc k n (remove j l) s (Near-remove k j n l s ne h))
    | inr live ↦ rw (held, spec_get, live) (Near-front k j n l s (v, expires) ne h)
  ]
]

spec_set-Near :
    (k j : Text) (size n : ℕ) (value : Option CallResult) (ttl : ℤ) (now : ℕ) (l : View)
    (s : Stored)
    → (j == k) ≡ false
    → suc n ≤ size
    → Near k n l s
    → Near k (suc n) (spec_set size j value ttl now l) s
unfolding spec_set
spec_set-Near k j size n none ttl now l s ne room h = Near-suc k n l s h
spec_set-Near k j size n (some r) ttl now l s ne room h = elim (Bool-cases (leb_ℤ ttl (pos 0))) [
  | inl skip ↦ rw skip (Near-suc k n l s h)
  | inr store ↦
      let stored : Stored = (some r, now + pos_part ttl) in
      rw (store, take-take (suc n) size ((j, stored) ∷ remove j l) room)
        (Near-front k j n l s stored ne h)
]

step-Near :
    (c : Lru) (x : Call) (k : Text) (n : ℕ) (s : Stored)
    → IsValid c
    → (call_key x == k) ≡ false
    → suc n ≤ c.size
    → Near k n (view c.list) s
    → Near k (suc n) (view (step c x).list) s
unfolding step
step-Near c (get_call j now) k n s v ne room h =
    rw (get-refines c j now v).0 (spec_get-Near k j now n (view c.list) s ne h)
step-Near c (set_call j value ttl now) k n s v ne room h =
    rw (set-refines c j value ttl now v)
      (spec_set-Near k j c.size n value ttl now (view c.list) s ne room h)

abbrev pub OtherKeys : Text → List Call → Type 0
OtherKeys k calls = All (λ x. (call_key x == k) ≡ false) calls

run-Near :
    (c : Lru) (calls : List Call) (k : Text) (n : ℕ) (s : Stored)
    → IsValid c
    → OtherKeys k calls
    → n + length calls ≤ c.size
    → Near k n (view c.list) s
    → Near k (n + length calls) (view (run c calls).list) s
unfolding run
run-Near c [] k n s v other room h = rw add-zero h
run-Near c (x ∷ past) k n s v other room h = rw add-suc (
    step-Near (run c past) x k (n + length past) s (run-IsValid c past v) other.0
      (omega (arith, size-run c past)) (run-Near c past k n s v other.1 (omega arith) h))

spec_set_front :
    (size : ℕ) (k : Text) (r : CallResult) (ttl : ℤ) (now : ℕ) (l : View)
    → 0 < size
    → leb_ℤ ttl (pos 0) ≡ false
    → Near k 1 (spec_set size k (some r) ttl now l) (some r, now + pos_part ttl)
unfolding spec_set lookup
spec_set_front zero k r ttl now l p store = absurd (omega arith)
spec_set_front (suc n) k r ttl now l p store = rw store (ground (arith, text_beq_iff k k))

spec_get_hit :
    (k : Text) (later expires : ℕ) (l : View) (r : CallResult)
    → lookup k l ≡ some (some r, expires)
    → later ≤ expires
    → (spec_get k later l).1 ≡ some r
unfolding spec_get
spec_get_hit k later expires l r held live = rw (held, spec_get) (ground arith)

-- A value that is stored in a valid cache is returned by a later `Get`, if it has not expired then
-- and there were fewer calls in between than the size, all of them on other keys.
pub set_survives :
    (c : Lru) (k : Text) (r : CallResult) (ttl : ℤ) (now later : ℕ) (calls : List Call)
    → IsValid c
    → leb_ℤ ttl (pos 0) ≡ false
    → OtherKeys k calls
    → length calls < c.size
    → later ≤ now + pos_part ttl
    → (get (run (set c k (some r) ttl now) calls) k later).1 ≡ some r
set_survives c k r ttl now later calls v store other room live =
    let d = set c k (some r) ttl now in
    let vd = set-IsValid c k v (some r) ttl now in
    let s : Stored = (some r, now + pos_part ttl) in
    let same : d.size ≡ c.size = unfold step in size-step c (set_call k (some r) ttl now) in
    let front : Near k 1 (view d.list) s =
      rw (set-refines c k (some r) ttl now v)
        (spec_set_front c.size k r ttl now (view c.list) v.positive store) in
    let held : lookup k (view (run d calls).list) ≡ some s =
      lookup-take k (1 + length calls) (view (run d calls).list)
        (run-Near d calls k 1 s vd other (omega (arith, same)) front) in
    (get-refines (run d calls) k later (run-IsValid d calls vd)).1
    ∙ spec_get_hit k later (now + pos_part ttl) (view (run d calls).list) r held live
