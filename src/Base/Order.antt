-- ===== src/Base/Order.antt =====
-- The order of byte strings, and sorting as a function of the elements.
use Prim.Native.Nat.{ℕ}
use mathlib.Core.Path.{◌≡◌, refl, ap, ◌∙◌}
use mathlib.Core.Bool.{true, false}
use mathlib.Core.List.{List, [], ◌∷◌}
use native.Mathlib.Omega.{arith}
use mcp_multiplexer.Base.Sorting.{text_leb, sort_insert, sort}

text_leb_total : (a b : List ℕ) → text_leb a b ≡ false → text_leb b a ≡ true
unfolding text_leb
text_leb_total [] b h = ground arith
text_leb_total (x ∷ a) [] h = refl
text_leb_total (x ∷ a) (y ∷ b) h = ground (arith, text_leb_total a b)

text_leb_antisymm : (a b : List ℕ) → text_leb a b ≡ true → text_leb b a ≡ true → a ≡ b
unfolding text_leb
text_leb_antisymm [] [] h k = refl
text_leb_antisymm [] (y ∷ b) h k = ground arith
text_leb_antisymm (x ∷ a) [] h k = ground arith
text_leb_antisymm (x ∷ a) (y ∷ b) h k = ground (arith, text_leb_antisymm a b)

text_leb_trans : (a b c : List ℕ) → text_leb a b ≡ true → text_leb b c ≡ true → text_leb a c ≡ true
unfolding text_leb
text_leb_trans [] b c h k = refl
text_leb_trans (x ∷ a) [] c h k = ground arith
text_leb_trans (x ∷ a) (y ∷ b) [] h k = ground arith
text_leb_trans (x ∷ a) (y ∷ b) (z ∷ c) h k = ground (arith, text_leb_trans a b c)

-- The same elements, as often, in another order.
pub data Reordered {ℓ} {A : Type ℓ} : List A → List A → Type ℓ where
  same : {xs : List A} → Reordered xs xs
  under : (x : A) {xs ys : List A} → Reordered xs ys → Reordered (x ∷ xs) (x ∷ ys)
  swap : (x y : A) (xs : List A) → Reordered (x ∷ y ∷ xs) (y ∷ x ∷ xs)
  chain : {xs ys zs : List A} → Reordered xs ys → Reordered ys zs → Reordered xs zs

sort_insert_comm :
    (a b : List ℕ) (l : List (List ℕ))
    → sort_insert a (sort_insert b l) ≡ sort_insert b (sort_insert a l)
unfolding sort_insert
sort_insert_comm a b [] = ground (arith, text_leb_total a b, text_leb_antisymm a b)
sort_insert_comm a b (t ∷ l) = ground (
  arith,
  text_leb_total a b,
  text_leb_antisymm a b,
  text_leb_total a t,
  text_leb_total b t,
  text_leb_trans a b t,
  text_leb_trans b a t,
  sort_insert_comm a b l,
)

pub sort-Reordered : {xs ys : List (List ℕ)} → Reordered xs ys → sort xs ≡ sort ys
unfolding sort
sort-Reordered same = refl
sort-Reordered (under x r) = ap (sort_insert x) (sort-Reordered r)
sort-Reordered (swap x y xs) = sort_insert_comm x y (sort xs)
sort-Reordered (chain r q) = sort-Reordered r ∙ sort-Reordered q
