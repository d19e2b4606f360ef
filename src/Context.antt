-- ===== src/Context.antt =====
-- The values that the code keeps in a `context.Context`: the cache scope and the cache-hit mark of
-- cache.go, and the caller's roles of policy/policy.go.
use mcp_multiplexer.Base.{
  ℕ, Text, text_eq, Bool, true, false, Option, none, some, List, [], ◌∷◌, ◌≡◌, refl, if◌then◌else◌,
  nat_beq,
}

-- The keys are unexported types and a constant; `user_key` is any key of the caller's own.
pub data ContextKey : Type 0 where
  cache_scope_key cache_hit_key roles_key : ContextKey
  user_key : ℕ → ContextKey

-- A value of type `any`, by the types that the code asserts.
pub data ContextValue : Type 0 where
  text : Text → ContextValue
  flag : Bool → ContextValue
  texts : List Text → ContextValue
  other : ℕ → ContextValue

-- A context is the list of the pairs put into it, the innermost first.
abbrev pub Context : Type 0
Context = List (ContextKey × ContextValue)

key_beq : ContextKey → ContextKey → Bool
key_beq cache_scope_key cache_scope_key = true
key_beq cache_hit_key cache_hit_key = true
key_beq roles_key roles_key = true
key_beq (user_key a) (user_key b) = nat_beq a b
key_beq _ _ = false

-- `ctx.Value(key)`
unfoldable pub value : ContextKey → Context → Option ContextValue
unfolding key_beq
value k [] = none
value k ((j, v) ∷ ctx) = if key_beq j k then some v else value k ctx

-- `context.WithValue`
abbrev pub with_value : Context → ContextKey → ContextValue → Context
with_value ctx k v = (k, v) ∷ ctx

unfoldable pub with_cache_scope : Context → Text → Context
with_cache_scope ctx scope = with_value ctx cache_scope_key (text scope)

as_text : Option ContextValue → Text
as_text (some (text s)) = s
as_text _ = []

as_flag : Option ContextValue → Bool
as_flag (some (flag b)) = b
as_flag _ = false

unfoldable pub cache_scope : Context → Text
unfolding as_text value
cache_scope ctx = as_text (value cache_scope_key ctx)

unfoldable pub is_cache_hit : Context → Bool
unfolding as_flag value
is_cache_hit ctx = as_flag (value cache_hit_key ctx)

unfoldable pub mark_cache_hit : Context → Context
mark_cache_hit ctx = with_value ctx cache_hit_key (flag true)

-- The scope that was put last is the scope that is read; marking a hit shows as a hit and leaves the
-- scope alone.
pub cache_scope_lem :
    (ctx : Context) (scope : Text)
    → (cache_scope (with_cache_scope ctx scope) ≡ scope)
      × (is_cache_hit (with_cache_scope ctx scope) ≡ is_cache_hit ctx)
      × (is_cache_hit (mark_cache_hit ctx) ≡ true)
      × (cache_scope (mark_cache_hit ctx) ≡ cache_scope ctx)
unfolding cache_scope is_cache_hit with_cache_scope mark_cache_hit
cache_scope_lem ctx scope = (refl, refl, refl, refl)
