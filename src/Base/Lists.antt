-- ===== src/Base/Lists.antt =====
-- Lists measured by native numbers, and the predicates on lists that the components use.
use Prim.Native.Nat.{ℕ, zero, suc, ◌+◌, ◌≤◌}
use mathlib.Core.Path.{◌≡◌, refl, ap, subst}
use mathlib.Core.Logic.{inl, inr}
use mathlib.Core.Bool.{Bool, true, false, ◌&&◌, ◌||◌}
use mathlib.Core.List.{List, [], ◌∷◌, ◌++◌}
use native.Mathlib.Omega.{arith}
use mcp_multiplexer.Base.Tests.{if◌then◌else◌, Bool-cases}
use mcp_multiplexer.Base.Equality.{Eq, ◌==◌, ==_refl}

module _ {ℓ} {A : Type ℓ} where
  abbrev pub length : List A → ℕ
  length [] = 0
  length (x ∷ xs) = suc (length xs)

  abbrev pub take : ℕ → List A → List A
  take zero xs = []
  take (suc n) [] = []
  take (suc n) (x ∷ xs) = x ∷ take n xs

  pub take_all : (n : ℕ) (xs : List A) → length xs ≤ n → take n xs ≡ xs
  take_all zero [] h = refl
  take_all zero (x ∷ xs) h = absurd (omega arith)
  take_all (suc n) [] h = refl
  take_all (suc n) (x ∷ xs) h = ap (◌∷◌ x) (take_all n xs (omega arith))

  pub length-append : (xs ys : List A) → length (xs ++ ys) ≡ length xs + length ys
  length-append [] ys = omega arith
  length-append (x ∷ xs) ys = omega (arith, length-append xs ys)

  abbrev pub filter : (A → Bool) → List A → List A
  filter p [] = []
  filter p (x ∷ xs) = let rest = filter p xs in if p x then x ∷ rest else rest

abbrev pub All {ℓ κ} : {A : Type ℓ} → (A → Type κ) → List A → Type κ
All Holds [] = Unit
All Holds (x ∷ xs) = Holds x × All Holds xs

pub All-append {ℓ κ} :
    {A : Type ℓ} (Holds : A → Type κ) (xs ys : List A)
    → All Holds xs
    → All Holds ys
    → All Holds (xs ++ ys)
All-append Holds [] ys h k = k
All-append Holds (x ∷ xs) ys h k = (h.0, All-append Holds xs ys h.1 k)

module _ {ℓ} {A : Type ℓ} ⦃e : Eq A⦄ where
  abbrev pub contains : A → List A → Bool
  contains a [] = false
  contains a (x ∷ xs) = (x == a) || contains a xs

  -- No two elements of the list are equal.
  abbrev pub distinct : List A → Bool
  distinct [] = true
  distinct (x ∷ xs) = (if contains x xs then false else true) && distinct xs

  pub All-contains {κ} :
      (Holds : A → Type κ) (a : A) (xs : List A) → All Holds xs → contains a xs ≡ true → Holds a
  All-contains Holds a [] h m = absurd (ground arith)
  All-contains Holds a (x ∷ xs) h m = elim (Bool-cases (x == a)) [
    | inl same ↦ subst Holds ((e.test_iff x a).0 same) h.0
    | inr other ↦ All-contains Holds a xs h.1 (ground arith)
  ]

  pub distinct-cons :
      (a : A) (xs : List A) → contains a xs ≡ false → distinct xs ≡ true → distinct (a ∷ xs) ≡ true
  distinct-cons a xs h d = ground arith

  pub contains-snoc :
      (a b : A) (xs : List A) → contains a (xs ++ b ∷ []) ≡ (contains a xs || (b == a))
  contains-snoc a b [] = ground arith
  contains-snoc a b (x ∷ xs) = ground (arith, contains-snoc a b xs)

  -- Lists that are split at the first separator.
  pub separator_inj :
      (c : A) (xs xs' ys ys' : List A)
      → contains c xs ≡ false
      → contains c xs' ≡ false
      → xs ++ c ∷ ys ≡ xs' ++ c ∷ ys'
      → (xs ≡ xs') × (ys ≡ ys')
  separator_inj c [] [] ys ys' h h' e = ground arith
  separator_inj c [] (x ∷ xs') ys ys' h h' e = absurd (ground (arith, e, ==_refl x))
  separator_inj c (x ∷ xs) [] ys ys' h h' e = absurd (ground (arith, e, ==_refl x))
  separator_inj c (x ∷ xs) (x' ∷ xs') ys ys' h h' e =
      let (p, q) = separator_inj c xs xs' ys ys' (ground arith) (ground arith) (ground arith) in
      (ground (arith, p), q)
