-- ===== src/Options/Laws.antt =====
-- What holds of the options, whatever settings the caller gives, and in which order the hooks stand.
use mathlib.Core.List.{append-nil, append_assoc}
use mcp_multiplexer.Base.{
  Text, true, false, Option, none, some, List, [], ◌∷◌, ◌++◌, ◌≡◌, refl, sym, ◌∙◌, ap, arith,
  is_empty, ltb_ℤ, leb_ℤ, pos,
}
use mcp_multiplexer.Options.{
  with_logger, Options, Setting, BeforeCallHook, AfterCallHook, default_options,
  default_client_version, apply, apply_settings, with_before_call, with_after_call,
}

-- Timeouts, the default time to live and the size of the cache are positive, the retry limit is not
-- negative, the client name and version are not empty, and a disabled cache is no cache.
pub record IsSane {W E : Type 0} (o : Options W E) : Type 0 where
  pub call_timeout : ltb_ℤ (pos 0) o.call_timeout ≡ true
  pub http_retry_max : leb_ℤ (pos 0) o.http_retry_max ≡ true
  pub cache_ttl : ltb_ℤ (pos 0) o.cache_ttl ≡ true
  pub cache_size : ltb_ℤ (pos 0) o.cache_size ≡ true
  pub client_name : is_empty o.client_name ≡ false
  pub client_version : is_empty o.client_version ≡ false
  pub no_cache : o.cache_disabled ≡ true → o.cache ≡ none

default_version : (build : Option Text) → is_empty (default_client_version build) ≡ false
unfolding default_client_version
default_version none = refl
default_version (some v) = ground arith

default-IsSane :
    {W E : Type 0} (build : Option Text) → IsSane (default_options {W = W} {E = E} build)
unfolding default_options
default-IsSane build = record {
  call_timeout = refl;
  http_retry_max = refl;
  cache_ttl = refl;
  cache_size = refl;
  client_name = refl;
  client_version = default_version build;
  no_cache = λ h. refl;
}

apply-IsSane : {W E : Type 0} (s : Setting W E) (o : Options W E) → IsSane o → IsSane (apply s o)
unfolding apply
apply-IsSane (with_logger none) o h = h
apply-IsSane _ o h = record {
  call_timeout = ground arith;
  http_retry_max = ground arith;
  cache_ttl = ground arith;
  cache_size = ground arith;
  client_name = ground arith;
  client_version = ground arith;
  no_cache = ground arith;
}

apply_settings_keeps :
    {W E : Type 0} (ss : List (Setting W E)) (o : Options W E)
    → IsSane o
    → IsSane (apply_settings ss o)
unfolding apply_settings
apply_settings_keeps [] o h = h
apply_settings_keeps (s ∷ ss) o h = apply_settings_keeps ss (apply s o) (apply-IsSane s o h)

-- Whatever settings are given, in whatever order, the call timeout, the default time to live and the
-- size of the cache are positive, the retry limit is not negative, the client's name and version are
-- not empty, and a disabled cache is no cache.
pub apply_settings-IsSane :
    {W E : Type 0} (build : Option Text) (ss : List (Setting W E))
    → IsSane (apply_settings ss (default_options build))
apply_settings-IsSane build ss =
    apply_settings_keeps ss (default_options build) (default-IsSane build)

before_of : {W E : Type 0} → Setting W E → List (BeforeCallHook W E)
before_of (with_before_call h) = h ∷ []
before_of _ = []

after_of : {W E : Type 0} → Setting W E → List (AfterCallHook W E)
after_of (with_after_call h) = h ∷ []
after_of _ = []

-- The hooks that a list of settings registers, in its order.
unfoldable pub before_hooks : {W E : Type 0} → List (Setting W E) → List (BeforeCallHook W E)
unfolding before_of
before_hooks [] = []
before_hooks (s ∷ ss) = before_of s ++ before_hooks ss

unfoldable pub after_hooks : {W E : Type 0} → List (Setting W E) → List (AfterCallHook W E)
unfolding after_of
after_hooks [] = []
after_hooks (s ∷ ss) = after_of s ++ after_hooks ss

before_apply :
    {W E : Type 0} (s : Setting W E) (o : Options W E)
    → (apply s o).before_call ≡ o.before_call ++ before_of s
unfolding apply before_of
before_apply (with_before_call h) o = refl
before_apply _ o = ground (arith, append-nil o.before_call)

after_apply :
    {W E : Type 0} (s : Setting W E) (o : Options W E)
    → (apply s o).after_call ≡ o.after_call ++ after_of s
unfolding apply after_of
after_apply (with_after_call h) o = refl
after_apply _ o = ground (arith, append-nil o.after_call)

-- BeforeCall and AfterCall hooks stand in the order of their registration, and no other setting
-- touches them.
pub apply_settings_hooks :
    {W E : Type 0} (ss : List (Setting W E)) (o : Options W E)
    → ((apply_settings ss o).before_call ≡ o.before_call ++ before_hooks ss)
      × ((apply_settings ss o).after_call ≡ o.after_call ++ after_hooks ss)
unfolding apply_settings before_hooks after_hooks
apply_settings_hooks [] o = (sym (append-nil o.before_call), sym (append-nil o.after_call))
apply_settings_hooks (s ∷ ss) o =
    let (before, after) = apply_settings_hooks ss (apply s o) in
    (
      before
          ∙ ap (λ l. l ++ before_hooks ss) (before_apply s o)
          ∙ append_assoc o.before_call (before_of s) (before_hooks ss),
      after
          ∙ ap (λ l. l ++ after_hooks ss) (after_apply s o)
          ∙ append_assoc o.after_call (after_of s) (after_hooks ss),
    )
