-- ===== src/TestServer/Running/Checked.antt =====
-- What the test server's check of its options accepts.
use mcp_multiplexer.Base.{
  Text, text_eq, ◌≡◌, refl, ◌↔◌, true, Option, none, some, List, [], ◌∷◌, contains, keys, All,
  arith, Bool-cases, inl, inr,
}
use mcp_multiplexer.TestServer.{Server}
use mcp_multiplexer.TestServer.Running.{
  ensure_known, spec_names, first_unknown, unknown_error, unknown_delay,
}

abbrev pub AllKnown : List Text → List Text → Type 0
AllKnown known ns = All (λ n. contains n known ≡ true) ns

first_unknown_iff : (known ns : List Text) → (first_unknown known ns ≡ none) ↔ AllKnown known ns
unfolding first_unknown
first_unknown_iff known [] = (λ h. tt, λ h. refl)
first_unknown_iff known (n ∷ ns) = elim (Bool-cases (contains n known)) [
  | inl e ↦ (
    λ h. (e, (first_unknown_iff known ns).0 (ground (arith, h, e))),
    λ h. ground (arith, e, (first_unknown_iff known ns).1 h.1),
  )
  | inr e ↦ (λ h. absurd (ground (arith, h, e)), λ h. absurd (ground (arith, e, h.0)))
]

either_iff :
    (a b : Option Text) → (unknown_delay a (unknown_error b) ≡ none) ↔ ((a ≡ none) × (b ≡ none))
unfolding unknown_delay unknown_error
either_iff none none = ground arith
either_iff none (some b) = ground arith
either_iff (some a) b = ground arith

-- The server accepts its options exactly when each delay and each error is attached to the name of
-- a tool that it has.
pub ensure_known_iff :
    {S W E : Type 0} (s : Server S W E)
    → (ensure_known s ≡ none) ↔ (
        AllKnown (spec_names s.specs) (keys s.delays)
        × AllKnown (spec_names s.specs) (keys s.errors))
unfolding ensure_known
ensure_known_iff s = (
  λ h.
      let (d, e) = (either_iff _ _).0 h in
      ((first_unknown_iff _ _).0 d, (first_unknown_iff _ _).0 e),
  λ (d, e). (either_iff _ _).1 ((first_unknown_iff _ _).1 d, (first_unknown_iff _ _).1 e),
)
