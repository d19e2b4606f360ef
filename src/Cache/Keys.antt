-- ===== src/Cache/Keys.antt =====
-- cache.go: which tools are cached, and the key of a call.
use mcp_multiplexer.Base.{
  separator_inj, Text, text_eq, text_beq_iff, nat_eq, bytes, ◌==◌, ◌≡◌, if◌then◌else◌, Bool, true,
  false, ◌&&◌, Option, none, some, [], ◌++◌, lookup, is_empty, contains, arith, ◌⊎◌, ◌↔◌,
}
use mathlib.Core.List.{append_assoc}
use mcp_multiplexer.Context.{Context, cache_scope}
use mcp_multiplexer.Tool.{ToolInfo}
use mcp_multiplexer.Host.{Host, ok, err}

-- `info.Custom[k]`, which is empty for a missing key.
abbrev custom_or_empty : Option Text → Text
custom_or_empty none = []
custom_or_empty (some v) = v

unfoldable pub is_cacheable : ToolInfo → Bool
is_cacheable info =
    if info.destructive
    then false
    else if info.read_only && info.idempotent
    then true
    else custom_or_empty (lookup (bytes "cacheable") info.custom) == bytes "true"

module _ {W E : Type 0} (host : Host W E) where
  marshalled : Option Text → Text
  marshalled none = bytes "{}"
  marshalled (some b) = b

  unfoldable pub canonical_json : Text → Text
  unfolding marshalled
  canonical_json args =
      if is_empty args
      then bytes "{}"
      else elim (host.unmarshal args) [ err e ↦ bytes "{}" | ok v ↦ marshalled (host.marshal v) ]

  unfoldable pub default_cache_key : Context → Text → Text → Text → Text
  default_cache_key ctx server tool args =
      cache_scope ctx
      ++ (bytes "|" ++ (server ++ (bytes "|" ++ (tool ++ (bytes "|" ++ canonical_json args)))))

says_true :
    (o : Option Text) → ((custom_or_empty o == bytes "true") ≡ true) ↔ (o ≡ some (bytes "true"))
says_true none = ground (arith, text_beq_iff [] (bytes "true"))
says_true (some v) = ground (arith, text_beq_iff v (bytes "true"))

-- Destructive tools are never cached; others are exactly if they are read-only and idempotent, or
-- say so in their labels.
pub is_cacheable_iff :
    (info : ToolInfo)
    → (is_cacheable info ≡ true) ↔ (
        (info.destructive ≡ false)
        × (((info.read_only ≡ true) × (info.idempotent ≡ true))
            ⊎ (lookup (bytes "cacheable") info.custom ≡ some (bytes "true"))))
unfolding is_cacheable
is_cacheable_iff info = ground (arith, says_true (lookup (bytes "cacheable") info.custom))

abbrev pub has_bar : Text → Bool
has_bar s = contains b'|' s

-- Where neither scope nor server nor tool holds a bar, calls with the same key agree in scope,
-- server, tool and canonical arguments: no result crosses scopes.
pub default_cache_key_inj :
    {W E : Type 0} (host : Host W E) (ctx ctx' : Context)
    (server server' tool tool' args args' : Text)
    → has_bar (cache_scope ctx) ≡ false
    → has_bar (cache_scope ctx') ≡ false
    → has_bar server ≡ false
    → has_bar server' ≡ false
    → has_bar tool ≡ false
    → has_bar tool' ≡ false
    → default_cache_key host ctx server tool args ≡ default_cache_key host ctx' server' tool' args'
    → (cache_scope ctx ≡ cache_scope ctx')
      × (server ≡ server')
      × (tool ≡ tool')
      × (canonical_json host args ≡ canonical_json host args')
unfolding default_cache_key
default_cache_key_inj host ctx ctx' server server' tool tool' args args' a a' b b' c c' e =
    let (scopes, rest) = separator_inj b'|' (cache_scope ctx) (cache_scope ctx') _ _ a a' e in
    let (servers, rest') = separator_inj b'|' server server' _ _ b b' rest in
    let (tools, json) = separator_inj b'|' tool tool' _ _ c c' rest' in
    (scopes, servers, tools, json)

-- With a bar in a server's name, a call of one scope has the key of a call of another scope: for
-- scopes `a` and `a|b`, server `b|c` in the one is server `c` in the other.
pub default_cache_key_collision :
    {W E : Type 0} (host : Host W E) (ctx ctx' : Context) (a b c tool args : Text)
    → cache_scope ctx ≡ a
    → cache_scope ctx' ≡ a ++ (bytes "|" ++ b)
    → default_cache_key host ctx (b ++ (bytes "|" ++ c)) tool args
      ≡ default_cache_key host ctx' c tool args
unfolding default_cache_key
default_cache_key_collision host ctx ctx' a b c tool args e e' = rw (e, e') (simp append_assoc)
