-- ===== src/Policy/RateLimit/Laws.antt =====
-- The tokens of the buckets: their bound, their keys, and what a period adds.
use mcp_multiplexer.Base.{
  ℕ, ◌+◌, ◌-◌, ◌<◌, Text, text_eq, ◌==◌, ==_refl, ◌≡◌, refl, ap, ◌∙◌, ◌⊎◌, true, false, Option,
  none, some, List, [], ◌∷◌, lookup, insert, lookup-insert, All, ℤ, pos, arith, Bool-cases, inl,
  inr,
}
use mcp_multiplexer.Policy.RateLimit.{Float, Bucket, Buckets, refilled, spend, allow_from, allow}

-- What the code relies on of float64: the rounding of `-` and `min` never passes a bound, `x / x` is
-- 1 for the seconds of a positive duration, and a burst `n`, which is finite, is the lesser of `n`
-- and `t + n` where `t` is zero or positive, also where `t` is infinite.
pub record IsFloat {F : Type 0} (float : Float F) : Type 0 where
  pub less_irrefl : (a : F) → float.less a a ≡ false
  pub min_bound : (a b : F) → float.less a (float.min a b) ≡ false
  pub sub_bound :
      (a b : F)
      → float.less a b ≡ false
      → float.less a (float.sub b (float.from_int (pos 1))) ≡ false
  pub unit :
      (d : ℕ) (n : ℤ)
      → 0 < d
      → float.mul (float.div (float.seconds (pos d)) (float.seconds (pos d))) (float.from_int n)
        ≡ float.from_int n
  pub min_self :
      (n : ℤ) (t : F)
      → (float.less (float.from_int (pos 0)) t ≡ true) ⊎ (t ≡ float.from_int (pos 0))
      → float.min (float.from_int n) (float.add t (float.from_int n)) ≡ float.from_int n

module _ {F : Type 0} (float : Float F) (per burst : ℤ) where
  abbrev IsCapped : Bucket F → Type 0
  IsCapped b = float.less (float.from_int burst) b.tokens ≡ false

  -- No bucket has more tokens than the burst.
  abbrev pub AllCapped : Buckets F → Type 0
  AllCapped m = All (λ (key, b). IsCapped b) m

  -- The calls, each with its key and its time, one after the other.
  abbrev pub allow_all : List (Text × ℕ) → Buckets F → Buckets F
  allow_all [] m = m
  allow_all ((key, now) ∷ calls) m = allow_all calls (allow float per burst key now m).1

  insert-AllCapped :
      (key : Text) (b : Bucket F) (m : Buckets F)
      → IsCapped b
      → AllCapped m
      → AllCapped (insert key b m)
  unfolding insert
  insert-AllCapped key b [] h k = (h, tt)
  insert-AllCapped key b ((j, was) ∷ m) h k = elim (Bool-cases (j == key)) [
    | inl e ↦ rw e (h, k.1)
    | inr e ↦ rw e (k.0, insert-AllCapped key b m h k.1)
  ]

  module _ (laws : IsFloat float) where
    spend-AllCapped :
        (key : Text) (now : ℕ) (tokens : F) (m : Buckets F)
        → float.less (float.from_int burst) tokens ≡ false
        → AllCapped m
        → AllCapped (spend float per burst key now tokens m).1
    unfolding spend
    spend-AllCapped key now tokens m h k =
        elim (Bool-cases (float.less tokens (float.from_int (pos 1)))) [
          | inl e ↦ rw e (insert-AllCapped key _ m h k)
          | inr e ↦ rw e (insert-AllCapped key _ m (laws.sub_bound _ _ h) k)
        ]

    allow_from-AllCapped :
        (key : Text) (now : ℕ) (b : Option (Bucket F)) (m : Buckets F)
        → AllCapped m
        → AllCapped (allow_from float per burst key now b m).1
    unfolding allow_from refilled
    allow_from-AllCapped key now none m k =
        insert-AllCapped key _ m (laws.sub_bound _ _ (laws.less_irrefl _)) k
    allow_from-AllCapped key now (some b) m k = spend-AllCapped key now _ m (laws.min_bound _ _) k

    -- If no bucket has more tokens than the burst, as on a new limiter, then none has after any
    -- sequence of calls, at any times.
    pub allow_all-AllCapped :
        (calls : List (Text × ℕ)) (m : Buckets F) → AllCapped m → AllCapped (allow_all calls m)
    unfolding allow
    allow_all-AllCapped [] m k = k
    allow_all-AllCapped ((key, now) ∷ calls) m k =
        allow_all-AllCapped calls _ (allow_from-AllCapped key now (lookup key m) m k)

  spend-other :
      (key j : Text) (now : ℕ) (tokens : F) (m : Buckets F)
      → (key == j) ≡ false
      → lookup j (spend float per burst key now tokens m).1 ≡ lookup j m
  unfolding spend
  spend-other key j now tokens m h = ground (
    arith,
    h,
    lookup-insert key j (record { tokens = tokens; last_time = now }) m,
    lookup-insert key j
        (record { tokens = float.sub tokens (float.from_int (pos 1)); last_time = now }) m,
  )

  allow_from-other :
      (key j : Text) (now : ℕ) (b : Option (Bucket F)) (m : Buckets F)
      → (key == j) ≡ false
      → lookup j (allow_from float per burst key now b m).1 ≡ lookup j m
  unfolding allow_from
  allow_from-other key j now none m h = lookup-insert key j _ m ∙ rw h
  allow_from-other key j now (some b) m h = spend-other key j now _ m h

answer_of_spend :
    {F : Type 0} (float : Float F) (per burst : ℤ) (j : Text) (now : ℕ) (tokens : F)
    (m n : Buckets F)
    → (spend float per burst j now tokens m).0 ≡ (spend float per burst j now tokens n).0
unfolding spend
answer_of_spend float per burst j now tokens m n = ground arith

answer_from :
    {F : Type 0} (float : Float F) (per burst : ℤ) (j : Text) (now : ℕ) (b : Option (Bucket F))
    (m n : Buckets F)
    → (allow_from float per burst j now b m).0 ≡ (allow_from float per burst j now b n).0
unfolding allow_from
answer_from float per burst j now none m n = refl
answer_from float per burst j now (some b) m n = answer_of_spend float per burst j now _ m n

answer_of_lookup :
    {F : Type 0} (float : Float F) (per burst : ℤ) (j : Text) (now : ℕ) (m n : Buckets F)
    → lookup j m ≡ lookup j n
    → (allow float per burst j now m).0 ≡ (allow float per burst j now n).0
unfolding allow
answer_of_lookup float per burst j now m n e =
    rw e (answer_from float per burst j now (lookup j n) m n)

-- A tool's calls do not use up what another has: calls with other keys, however many and whenever,
-- leave the answer to a call as it would be without them.
pub allow_all-allow :
    {F : Type 0} (float : Float F) (per burst : ℤ) (calls : List (Text × ℕ)) (j : Text) (now : ℕ)
    (m : Buckets F)
    → All (λ (key, t). (key == j) ≡ false) calls
    → (allow float per burst j now (allow_all float per burst calls m)).0
      ≡ (allow float per burst j now m).0
unfolding allow
allow_all-allow float per burst [] j now m h = refl
allow_all-allow float per burst ((key, t) ∷ calls) j now m h =
    allow_all-allow float per burst calls j now _ h.1
    ∙ answer_of_lookup float per burst j now _ m
        (allow_from-other float per burst key j t (lookup key m) m h.0)

after_period : (a d : ℕ) → a + d - a ≡ d
after_period a d = omega arith

refilled_full :
    {F : Type 0} (float : Float F) (laws : IsFloat float) (d : ℕ) (burst : ℤ) (b : Bucket F)
    → 0 < d
    → (float.less (float.from_int (pos 0)) b.tokens ≡ true) ⊎ (b.tokens ≡ float.from_int (pos 0))
    → refilled float (pos d) burst (b.last_time + d) b ≡ float.from_int burst
unfolding refilled
refilled_full float laws d burst b lt t =
    let full = float.from_int burst in
    let earned =
      λ (n : ℕ). float.mul (float.div (float.seconds (pos n)) (float.seconds (pos d))) full in
    ap (λ n. float.min full (float.add b.tokens (earned n))) (after_period b.last_time d)
    ∙ ap (λ x. float.min full (float.add b.tokens x)) (laws.unit d burst lt)
    ∙ laws.min_self burst b.tokens t

spend_full :
    {F : Type 0} (float : Float F) (per burst : ℤ) (key : Text) (now : ℕ) (tokens : F)
    (m : Buckets F)
    → float.less tokens (float.from_int (pos 1)) ≡ false
    → ((spend float per burst key now tokens m).0 ≡ true)
      × (lookup key (spend float per burst key now tokens m).1
          ≡ some (record { tokens = float.sub tokens (float.from_int (pos 1)); last_time = now }))
unfolding spend
spend_full float per burst key now tokens m h = ground (
  arith,
  h,
  ==_refl key,
  lookup-insert key key
      (record { tokens = float.sub tokens (float.from_int (pos 1)); last_time = now }) m,
)

-- One period after its last call the bucket of a key is full, whatever was left in it: the call is
-- allowed and leaves the burst less one. So what is earned in a period is the whole burst, not one
-- token.
pub full_again :
    {F : Type 0} (float : Float F) (laws : IsFloat float) (d : ℕ) (burst : ℤ) (key : Text)
    (b : Bucket F) (m : Buckets F)
    → 0 < d
    → lookup key m ≡ some b
    → (float.less (float.from_int (pos 0)) b.tokens ≡ true) ⊎ (b.tokens ≡ float.from_int (pos 0))
    → float.less (float.from_int burst) (float.from_int (pos 1)) ≡ false
    → ((allow float (pos d) burst key (b.last_time + d) m).0 ≡ true)
      × (lookup key (allow float (pos d) burst key (b.last_time + d) m).1
          ≡ some (record {
            tokens = float.sub (float.from_int burst) (float.from_int (pos 1));
            last_time = b.last_time + d;
          }))
unfolding allow allow_from
full_again float laws d burst key b m lt found t big = rw found (
    rw (refilled_full float laws d burst b lt t)
      (spend_full float (pos d) burst key (b.last_time + d) (float.from_int burst) m big))
