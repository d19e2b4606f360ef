-- ===== src/Policy/RateLimit.antt =====
-- RateLimit of policy/policy.go. `F` is float64 with the operations that the code uses; the buckets
-- of the closure are a part of the world, which `Store` reads and writes.
pub mod Laws
use mcp_multiplexer.Base.{
  ℕ, ◌-◌, Text, text_eq, bytes, Bool, true, false, Option, none, some, List, ◌++◌, if◌then◌else◌,
  lookup, insert, ℤ, pos,
}
use mcp_multiplexer.Host.{Host}
use mcp_multiplexer.Options.{BeforeCallHook}
use mcp_multiplexer.Tool.{ToolInfo}

pub record Float (F : Type 0) : Type 0 where
  pub from_int : ℤ → F
  -- `time.Duration.Seconds`
  pub seconds : ℤ → F
  pub add : F → F → F
  pub sub : F → F → F
  pub mul : F → F → F
  pub div : F → F → F
  pub min : F → F → F
  pub less : F → F → Bool

-- `tbucket`; the time is that of the monotonic clock, in nanoseconds.
pub record Bucket (F : Type 0) : Type 0 where
  pub tokens : F
  pub last_time : ℕ

abbrev pub Buckets : Type 0 → Type 0
Buckets F = List (Text × Bucket F)

pub record Store (W F : Type 0) : Type 0 where
  pub read : W → Buckets F
  pub write : Buckets F → W → W

module _ {F : Type 0} (float : Float F) (per burst : ℤ) where
  open float use {from_int, seconds, add, sub, mul, div, min, less}

  -- The tokens of a bucket that was used before, with those earned since.
  unfoldable pub refilled : ℕ → Bucket F → F
  refilled now b =
      let refill = mul (div (seconds (pos (now - b.last_time))) (seconds per)) (from_int burst) in
      min (from_int burst) (add b.tokens refill)

  spend : Text → ℕ → F → Buckets F → Bool × Buckets F
  spend key now tokens m =
      if less tokens (from_int (pos 1))
      then (false, insert key (record { tokens = tokens; last_time = now }) m)
      else (true, insert key (record { tokens = sub tokens (from_int (pos 1)); last_time = now }) m)

  allow_from : Text → ℕ → Option (Bucket F) → Buckets F → Bool × Buckets F
  unfolding spend refilled
  allow_from key now none m = (
    true,
    insert key (record { tokens = sub (from_int burst) (from_int (pos 1)); last_time = now }) m,
  )
  allow_from key now (some b) m = spend key now (refilled now b) m

  -- `(*tokenBucket).allow`, at a reading of the clock.
  unfoldable pub allow : Text → ℕ → Buckets F → Bool × Buckets F
  unfolding allow_from
  allow key now m = allow_from key now (lookup key m) m

module _ {W E F : Type 0} (host : Host W E) (float : Float F) (store : Store W F) where
  -- The key of a bucket.
  unfoldable pub bucket_key : Text → ToolInfo → Text
  bucket_key server info = server ++ (bytes "/" ++ info.name)

  -- `RateLimit`; `exceeded` is the error for a server and a tool.
  unfoldable pub rate_limit : (Text → Text → E) → ℤ → ℤ → BeforeCallHook W E
  unfolding allow bucket_key
  rate_limit exceeded per burst ctx server tool info args w =
      let (now, w') = host.now w in
      let (allowed, m) = allow float per burst (bucket_key server info) now (store.read w') in
      ((none, none, (if allowed then none else some (exceeded server info.name))), store.write m w')
