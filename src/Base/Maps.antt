-- ===== src/Base/Maps.antt =====
-- Finite maps with comparable keys, as lists of pairs: a Go map. The order of the list stands for
-- the order in which a `range` over the map visits it.
use mathlib.Core.Path.{◌≡◌, refl}
use mathlib.Core.Bool.{true, false}
use mathlib.Core.List.{List, [], ◌∷◌, ◌++◌}
use mathlib.Core.Option.{Option, none, some}
use native.Mathlib.Omega.{arith}
use mcp_multiplexer.Base.Tests.{if◌then◌else◌, Bool-cases}
use mcp_multiplexer.Base.Equality.{Eq, ◌==◌}
use Prim.Native.Nat.{suc}
use mathlib.Core.Logic.{inl, inr}
use mcp_multiplexer.Base.Lists.{contains, distinct, length, All}

module _ {ℓ} {K : Type 0} {B : Type ℓ} ⦃e : Eq K⦄ where
  -- `val, ok := m[k]`
  unfoldable pub lookup : K → List (K × B) → Option B
  lookup k [] = none
  lookup k ((j, val) ∷ m) = if j == k then some val else lookup k m

  -- `m[k] = val`
  unfoldable pub insert : K → B → List (K × B) → List (K × B)
  insert k val [] = (k, val) ∷ []
  insert k val ((j, was) ∷ m) = if j == k then (j, val) ∷ m else (j, was) ∷ insert k val m

  -- `delete(m, k)`
  unfoldable pub remove : K → List (K × B) → List (K × B)
  remove k [] = []
  remove k ((j, val) ∷ m) = if j == k then remove k m else (j, val) ∷ remove k m

  -- `maps.Copy(m, n)`
  unfoldable pub insert_all : List (K × B) → List (K × B) → List (K × B)
  insert_all m [] = m
  insert_all m ((k, val) ∷ n) = insert_all (insert k val m) n

abbrev pub keys {ℓ} : {K : Type 0} {B : Type ℓ} → List (K × B) → List K
keys [] = []
keys ((k, val) ∷ m) = k ∷ keys m

module _ {ℓ} {K : Type 0} {B : Type ℓ} ⦃e : Eq K⦄ where
  pub lookup-insert :
      (k j : K) (val : B) (m : List (K × B))
      → lookup j (insert k val m) ≡ (if k == j then some val else lookup j m)
  unfolding lookup insert
  lookup-insert k j val [] = refl
  lookup-insert k j val ((i, was) ∷ m) =
      ground (arith, e.test_iff k j, e.test_iff i k, e.test_iff i j, lookup-insert k j val m)

  pub lookup-remove :
      (k j : K) (m : List (K × B)) → lookup j (remove k m) ≡ (if k == j then none else lookup j m)
  unfolding lookup remove
  lookup-remove k j [] = ground arith
  lookup-remove k j ((i, was) ∷ m) =
      ground (arith, e.test_iff k j, e.test_iff i k, e.test_iff i j, lookup-remove k j m)

  pub lookup_absent : (k : K) (m : List (K × B)) → contains k (keys m) ≡ false → lookup k m ≡ none
  unfolding lookup
  lookup_absent k [] h = refl
  lookup_absent k ((i, was) ∷ m) h = ground (arith, lookup_absent k m)

  pub absent_of_lookup :
      (k : K) (m : List (K × B)) → lookup k m ≡ none → contains k (keys m) ≡ false
  unfolding lookup
  absent_of_lookup k [] h = refl
  absent_of_lookup k ((i, was) ∷ m) h = ground (arith, absent_of_lookup k m)

  pub insert_absent :
      (k : K) (val : B) (m : List (K × B))
      → contains k (keys m) ≡ false
      → insert k val m ≡ m ++ (k, val) ∷ []
  unfolding insert
  insert_absent k val [] h = refl
  insert_absent k val ((i, was) ∷ m) h = ground (arith, insert_absent k val m)

  pub remove_absent : (k : K) (m : List (K × B)) → contains k (keys m) ≡ false → remove k m ≡ m
  unfolding remove
  remove_absent k [] h = refl
  remove_absent k ((i, was) ∷ m) h = ground (arith, remove_absent k m)

  pub contains-remove :
      (j k : K) (m : List (K × B))
      → contains j (keys (remove k m)) ≡ (if k == j then false else contains j (keys m))
  unfolding remove
  contains-remove j k [] = ground arith
  contains-remove j k ((i, was) ∷ m) =
      ground (arith, e.test_iff k j, e.test_iff i k, e.test_iff i j, contains-remove j k m)

  pub contains-remove_self : (k : K) (m : List (K × B)) → contains k (keys (remove k m)) ≡ false
  contains-remove_self k m = ground (arith, contains-remove k k m, e.test_iff k k)

  pub distinct-remove :
      (k : K) (m : List (K × B)) → distinct (keys m) ≡ true → distinct (keys (remove k m)) ≡ true
  unfolding remove
  distinct-remove k [] h = refl
  distinct-remove k ((i, was) ∷ m) h =
      ground (arith, e.test_iff k i, e.test_iff i k, distinct-remove k m, contains-remove i k m)

  -- The later map wins.
  pub lookup-insert_all :
      (j : K) (m n : List (K × B))
      → distinct (keys n) ≡ true
      → lookup j (insert_all m n) ≡ elim (lookup j n) [ none ↦ lookup j m | some val ↦ some val ]
  unfolding insert_all lookup
  lookup-insert_all j m [] h = refl
  lookup-insert_all j m ((k, val) ∷ n) h = ground (
    arith,
    e.test_iff k j,
    lookup-insert_all j (insert k val m) n,
    lookup-insert k j val m,
    lookup_absent k n,
  )

  pub length-remove :
      (k : K) (m : List (K × B))
      → distinct (keys m) ≡ true
      → contains k (keys m) ≡ true
      → suc (length (remove k m)) ≡ length m
  unfolding remove
  length-remove k [] d h = ground arith
  length-remove k ((i, was) ∷ m) d h =
      ground (arith, e.test_iff i k, remove_absent k m, length-remove k m)

  pub All-remove {κ} :
      (P : K → Type κ) (k : K) (m : List (K × B)) → All P (keys m) → All P (keys (remove k m))
  unfolding remove
  All-remove P k [] h = h
  All-remove P k ((i, was) ∷ m) h = elim (Bool-cases (i == k)) [
    | inl e ↦ rw e (All-remove P k m h.1)
    | inr e ↦ rw e (h.0, All-remove P k m h.1)
  ]

  pub contains_of_lookup :
      (k : K) (m : List (K × B)) (val : B) → lookup k m ≡ some val → contains k (keys m) ≡ true
  unfolding lookup
  contains_of_lookup k [] val h = ground arith
  contains_of_lookup k ((i, was) ∷ m) val h = ground (arith, contains_of_lookup k m val)
