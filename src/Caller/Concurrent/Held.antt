-- ===== src/Caller/Concurrent/Held.antt =====
-- The built-in cache, while calls run at once: it holds only what calls have made.
use mcp_multiplexer.Base.{
  ℕ, ◌<◌, ◌≡◌, refl, sym, ap, ◌∙◌, inl, inr, Text, text_eq, text_beq_iff, ◌==◌, ℤ, pos, leb_ℤ,
  Option, none, some, List, [], ◌∷◌, All, arith, Bool-cases,
}
use mcp_multiplexer.Context.{Context}
use mcp_multiplexer.Tool.{CallResult}
use mcp_multiplexer.Errors.{Failure}
use mcp_multiplexer.Host.{Host}
use mcp_multiplexer.Options.{Options, RejectReason}
use mcp_multiplexer.Cache.Lru.{Lru, new_lru_cache, set}
use mcp_multiplexer.Cache.Lru.History.{Call, get_call, set_call, run, step, last_set, get_fresh}
use mcp_multiplexer.Caller.Run.{
  Run, Active, no_cache, user, builtin, cache_get, cache_set, since, run_after_call, fire_rejected,
  safe_record_call,
}
use mcp_multiplexer.Caller.Dispatch.{Target, after_now, fail_after}
use mcp_multiplexer.Caller.Cached.{cache-after_loop, cache_get-builtin}
use mcp_multiplexer.Caller.Concurrent.{Made}
use mcp_multiplexer.Caller.Concurrent.Origin.{Shared, Unused, Grows, Shared-grow}

module _ {W E : Type 0} (host : Host W E) (opts : Options W E) where
  -- What is stored was made under the key.
  abbrev Backed : List Made → Call → Type 0
  Backed made (get_call k now) = Unit
  Backed made (set_call k none ttl now) = Unit
  Backed made (set_call k (some r) ttl now) = Shared host opts made k r

  last_set-Backed :
      (made : List Made) (k : Text) (r : CallResult) (past : List Call) {expires : ℕ}
      → All (Backed made) past
      → last_set k past ≡ some (some r, expires)
      → Shared host opts made k r
  unfolding last_set
  last_set-Backed made k r [] b h = absurd (ground arith)
  last_set-Backed made k r (get_call j now ∷ past) b h = last_set-Backed made k r past b.1 h
  last_set-Backed made k r (set_call j none ttl now ∷ past) b h =
      last_set-Backed made k r past b.1 h
  last_set-Backed made k r (set_call j (some v) ttl now ∷ past) b h =
      elim (Bool-cases (leb_ℤ ttl (pos 0))) [
        | inl skip ↦ last_set-Backed made k r past b.1 (rw skip at h)
        | inr stored ↦ elim (Bool-cases (j == k)) [
          | inl same ↦
              let (m, there, key, result, cacheable, good) = b.0 in
              let same_key : j ≡ k = (text_beq_iff j k).0 same in
              let same_result : v ≡ r = ground (arith, h) in
              (
                m,
                there,
                key ∙ same_key,
                result ∙ same_result,
                cacheable,
                sym (ap (λ (x : CallResult). x.is_error) same_result) ∙ good,
              )
          | inr other ↦ last_set-Backed made k r past b.1 (rw (stored, other) at h)
        ]
      ]

  All-Backed-grow :
      (made made' : List Made) (past : List Call)
      → Grows made made'
      → All (Backed made) past
      → All (Backed made') past
  All-Backed-grow made made' [] grow b = tt
  All-Backed-grow made made' (get_call k now ∷ past) grow b =
      (tt, All-Backed-grow made made' past grow b.1)
  All-Backed-grow made made' (set_call k none ttl now ∷ past) grow b =
      (tt, All-Backed-grow made made' past grow b.1)
  All-Backed-grow made made' (set_call k (some r) ttl now ∷ past) grow b =
      (Shared-grow host opts made made' k r grow b.0, All-Backed-grow made made' past grow b.1)

  -- The cache is what these calls made of a new one, and what they stored was made.
  abbrev pub Held : ℕ → List Made → Option Lru → Type 0
  Held size made o =
      (past : List Call) × (o ≡ some (run (new_lru_cache size) past)) × All (Backed made) past

  pub Held-same :
      (size : ℕ) (made : List Made) (o o' : Option Lru)
      → o' ≡ o
      → Held size made o
      → Held size made o'
  Held-same size made o o' e (past, h, b) = (past, e ∙ h, b)

  pub Held-grow :
      (size : ℕ) (made made' : List Made) (o : Option Lru)
      → Grows made made'
      → Held size made o
      → Held size made' o
  Held-grow size made made' o grow (past, h, b) = (past, h, All-Backed-grow made made' past grow b)

  pub cache-after_now :
      (t : Target) (ctx : Context) (r : Option CallResult) (e : Option (Failure E)) (s : Run W E)
      → (after_now host opts t ctx r e s).builtin_cache ≡ s.builtin_cache
  unfolding after_now run_after_call since
  cache-after_now t ctx r e s =
      cache-after_loop host opts opts.after_call ctx t.server t.tool t.info t.args r e _ _

  pub cache-fail_after :
      (t : Target) (ctx : Context) (r : Option CallResult) (e : Failure E) (dur : ℕ) (s : Run W E)
      → (fail_after host opts t ctx r e dur s).1.builtin_cache ≡ s.builtin_cache
  unfolding fail_after run_after_call safe_record_call
  cache-fail_after t ctx r e dur s =
      cache-after_loop host opts opts.after_call ctx t.server t.tool t.info t.args r (some e) dur s

  pub cache-fire_rejected :
      (ctx : Context) (server tool : Text) (reason : RejectReason) (e : Failure E) (s : Run W E)
      → (fire_rejected host opts ctx server tool reason e s).builtin_cache ≡ s.builtin_cache
  unfolding fire_rejected
  cache-fire_rejected ctx server tool reason e s = ground arith

  pub Held-get :
      (active : Active host opts) (ctx : Context) (k : Text) (size : ℕ) (made : List Made)
      (s : Run W E)
      → Unused host opts active
      → Held size made s.builtin_cache
      → Held size made (cache_get host opts active ctx k s).1.builtin_cache
  unfolding cache_get run step
  Held-get no_cache ctx k size made s u h = h
  Held-get (user c) ctx k size made s u h = absurd u
  Held-get builtin ctx k size made s u (past, h, b) =
      (get_call k (host.now s.world).0 ∷ past, rw h refl, (tt, b))

  pub hit-Shared :
      (active : Active host opts) (ctx : Context) (k : Text) (size : ℕ) (made : List Made)
      (r : CallResult) (s : Run W E)
      → 0 < size
      → Unused host opts active
      → Held size made s.builtin_cache
      → (cache_get host opts active ctx k s).0 ≡ some r
      → Shared host opts made k r
  hit-Shared no_cache ctx k size made r s p u h found = absurd (unfold cache_get in ground arith)
  hit-Shared (user c) ctx k size made r s p u h found = absurd u
  hit-Shared builtin ctx k size made r s p u (past, h, b) found =
      let now = (host.now s.world).0 in
      let here = cache_get-builtin host opts ctx k (run (new_lru_cache size) past) s h in
      let (expires, set, live) = get_fresh size past k now r p (sym here ∙ found) in
      last_set-Backed made k r past b set

  pub Held-set :
      (active : Active host opts) (ctx : Context) (k : Text) (r : CallResult) (ttl : ℤ) (size : ℕ)
      (made : List Made) (s : Run W E)
      → Unused host opts active
      → Shared host opts made k r
      → Held size made s.builtin_cache
      → Held size made (cache_set host opts active ctx k r ttl s).builtin_cache
  unfolding cache_set run step
  Held-set no_cache ctx k r ttl size made s u shared h = h
  Held-set (user c) ctx k r ttl size made s u shared h = absurd u
  Held-set builtin ctx k r ttl size made s u shared (past, h, b) =
      (set_call k (some r) ttl (host.now s.world).0 ∷ past, rw h refl, (shared, b))
