-- ===== src/Tests/Limits.antt =====
-- A rate limiter that counts whole tokens.
use mcp_multiplexer.Base.{
  ℕ, ◌+◌, ◌-◌, ◌*◌, ◌/◌, ◌<◌, ◌≡◌, refl, inr, text_eq, text_beq, bytes, ltb, true, some, [], ◌∷◌,
  if◌then◌else◌, lookup, ℤ, pos, negsuc, arith,
}
use mcp_multiplexer.Policy.RateLimit.{Float, Bucket, allow}
use mcp_multiplexer.Policy.RateLimit.Laws.{IsFloat, full_again}

abbrev whole_of : ℤ → ℕ
whole_of (pos n) = n
whole_of (negsuc n) = 0

abbrev whole : Float ℕ
whole = record {
  from_int = whole_of;
  seconds = whole_of;
  add = λ a b. a + b;
  sub = λ a b. a - b;
  mul = λ a b. a * b;
  div = λ a b. a / b;
  min = λ a b. if ltb a b then a else b;
  less = ltb;
}

div_self : (d y : ℕ) → 0 < d → d / d * y ≡ y
div_self d y h = grind arith

whole-IsFloat : IsFloat whole
whole-IsFloat = record {
  less_irrefl = λ a. ground arith;
  min_bound = λ a b. ground arith;
  sub_bound = λ a b h. ground arith;
  unit = λ d n h. div_self d (whole_of n) h;
  min_self = λ n t h. ground arith;
}

abbrev used_up : Bucket ℕ
used_up = record { tokens = 0; last_time = 7 }

full_again_example :
    ((allow whole (pos 2) (pos 10) (bytes "vm/get") (7 + 2) ((bytes "vm/get", used_up) ∷ [])).0
      ≡ true)
    × (lookup
          (bytes "vm/get")
          (allow whole (pos 2) (pos 10) (bytes "vm/get") (7 + 2) ((bytes "vm/get", used_up) ∷ [])).1
        ≡ some (record { tokens = 10 - 1; last_time = 7 + 2 }))
unfolding lookup text_beq
full_again_example =
    full_again whole whole-IsFloat 2 (pos 10) (bytes "vm/get") used_up
      ((bytes "vm/get", used_up) ∷ []) (omega arith) refl (inr refl) refl
