-- ===== src/Base/Sorting.antt =====
-- `slices.Sort` on byte strings: the sorted permutation of its argument, by insertion.
use Prim.Native.Nat.{ℕ}
use mathlib.Core.Bool.{Bool, true, false}
use mathlib.Core.List.{List, [], ◌∷◌}
use mcp_multiplexer.Base.Tests.{ltb, if◌then◌else◌}

-- The lexicographic order of byte strings.
unfoldable pub text_leb : List ℕ → List ℕ → Bool
text_leb [] ys = true
text_leb (x ∷ xs) [] = false
text_leb (x ∷ xs) (y ∷ ys) = if ltb x y then true else if ltb y x then false else text_leb xs ys

unfoldable pub sort_insert : List ℕ → List (List ℕ) → List (List ℕ)
sort_insert s [] = s ∷ []
sort_insert s (t ∷ ts) = if text_leb s t then s ∷ t ∷ ts else t ∷ sort_insert s ts

unfoldable pub sort : List (List ℕ) → List (List ℕ)
unfolding sort_insert
sort [] = []
sort (s ∷ ss) = sort_insert s (sort ss)
