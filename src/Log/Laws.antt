-- ===== src/Log/Laws.antt =====
-- The fields behind the adapters, and the search of the capturing logger.
use mcp_multiplexer.Base.{
  Text, text_eq, nat_eq, ◌≡◌, ◌≢◌, refl, ap, ◌↔◌, ◌⊎◌, inl, inr, Bool, true, false, ◌||◌, List, [],
  ◌∷◌, ◌++◌, arith, Bool-cases, nat_beq_iff,
}
use mcp_multiplexer.Log.{
  Dynamic, string, Field, Entry, Captured, kv_to_fields, starts_with, contains_text, field_contains,
  any_contains, captured_contains,
}

-- The key-value list that carries the fields.
abbrev pub flat : {V : Type 0} → List (Field V) → List (Dynamic V)
flat [] = []
flat (f ∷ fs) = string f.key ∷ f.value ∷ flat fs

-- The fields that go-retryablehttp passes as keys and values come back as they were, also where a
-- key without a value follows.
pub kv_to_fields-flat :
    {V : Type 0} (fs : List (Field V)) (k : Dynamic V)
    → (kv_to_fields (flat fs) ≡ fs) × (kv_to_fields (flat fs ++ k ∷ []) ≡ fs)
unfolding kv_to_fields
kv_to_fields-flat [] k = (refl, refl)
kv_to_fields-flat (f ∷ fs) k =
    let (whole, cut) = kv_to_fields-flat fs k in (ap (◌∷◌ f) whole, ap (◌∷◌ f) cut)

-- The text stands somewhere in the other.
abbrev pub Within : Text → Text → Type 0
Within sub s = (before : Text) × (after : Text) × (s ≡ before ++ (sub ++ after))

starts_with_iff : (p s : Text) → (starts_with p s ≡ true) ↔ ((after : Text) × (s ≡ p ++ after))
starts_with_iff [] s = (λ h. (s, refl), λ h. refl)
starts_with_iff (c ∷ p) [] = (λ h. absurd (ground (arith, h)), λ (a, e). absurd (ground (arith, e)))
starts_with_iff (c ∷ p) (d ∷ s) = (
  λ h.
      let (after, e) = (starts_with_iff p s).0 (ground (arith, h)) in
      (after, ground (arith, e, h, nat_beq_iff c d)),
  λ (after, e).
      ground (arith, e, nat_beq_iff c d, (starts_with_iff p s).1 (after, ground (arith, e))),
)

contains_text-Within : (sub s : Text) → contains_text sub s ≡ true → Within sub s
contains_text-Within sub [] h = let (after, e) = (starts_with_iff sub []).0 h in ([], after, e)
contains_text-Within sub (c ∷ s) h = elim (Bool-cases (starts_with sub (c ∷ s))) [
  | inl e ↦ let (after, f) = (starts_with_iff sub (c ∷ s)).0 e in ([], after, f)
  | inr e ↦
      let (before, after, f) = contains_text-Within sub s (ground (arith, h, e)) in
      (c ∷ before, after, ap (◌∷◌ c) f)
]

Within-contains_text :
    (sub s before after : Text) → s ≡ before ++ (sub ++ after) → contains_text sub s ≡ true
Within-contains_text sub [] [] after e = (starts_with_iff sub []).1 (after, e)
Within-contains_text sub [] (b ∷ before) after e = absurd (ground (arith, e))
Within-contains_text sub (c ∷ s) [] after e = rw ((starts_with_iff sub (c ∷ s)).1 (after, e)) refl
Within-contains_text sub (c ∷ s) (b ∷ before) after e =
    ground (arith, Within-contains_text sub s before after (ground (arith, e)))

contains_text_iff : (sub s : Text) → (contains_text sub s ≡ true) ↔ Within sub s
contains_text_iff sub s =
    (contains_text-Within sub s, λ (before, after, e). Within-contains_text sub s before after e)

abbrev pub Some {ℓ} : {A : Type ℓ} → (A → Type 0) → List A → Type 0
Some Holds [] = ⊥
Some Holds (x ∷ xs) = Holds x ⊎ Some Holds xs

or_iff : {P Q : Type 0} (a b : Bool) → (a ≡ true) ↔ P → (b ≡ true) ↔ Q → ((a || b) ≡ true) ↔ (P ⊎ Q)
or_iff true b p q = (λ h. inl (p.0 refl), λ h. refl)
or_iff false b p q =
    (λ h. inr (q.0 h), λ h. elim h [ inl x ↦ absurd (ground (arith, p.1 x)) | inr y ↦ q.1 y ])

module _ {V : Type 0} (sprint : Dynamic V → Text) where
  -- The text stands in the message, or in a value as it is printed.
  abbrev pub Shows : Text → Entry V → Type 0
  Shows sub e = Within sub e.message ⊎ Some (λ (k, v). Within sub (sprint v)) e.fields

  field_contains_iff :
      (sub : Text) (m : List (Text × Dynamic V))
      → (field_contains sprint sub m ≡ true) ↔ Some (λ (k, v). Within sub (sprint v)) m
  unfolding field_contains
  field_contains_iff sub [] = (λ h. ground (arith, h), λ h. absurd h)
  field_contains_iff sub ((k, v) ∷ m) =
      or_iff _ _ (contains_text_iff sub (sprint v)) (field_contains_iff sub m)

  any_contains_iff :
      (sub : Text) (l : List (Entry V)) → (any_contains sprint sub l ≡ true) ↔ Some (Shows sub) l
  unfolding any_contains
  any_contains_iff sub [] = (λ h. ground (arith, h), λ h. absurd h)
  any_contains_iff sub (e ∷ l) =
      or_iff _ _ (or_iff _ _ (contains_text_iff sub e.message) (field_contains_iff sub e.fields))
        (any_contains_iff sub l)

  -- The capturing logger finds a text exactly if it is not empty and some captured line has it in
  -- its message, or in one of its values as it is printed.
  pub captured_contains_iff :
      (sub : Text) (l : Captured V)
      → (captured_contains sprint sub l ≡ true) ↔ ((sub ≢ []) × Some (Shows sub) l)
  unfolding captured_contains
  captured_contains_iff [] l = (λ h. absurd (ground (arith, h)), λ (n, s). absurd (n refl))
  captured_contains_iff (c ∷ sub) l = (
    λ h. (λ e. ground (arith, e), (any_contains_iff (c ∷ sub) l).0 h),
    λ (n, s). (any_contains_iff (c ∷ sub) l).1 s,
  )
