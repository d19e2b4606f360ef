-- ===== src/Policy.antt =====
-- policy/policy.go: ready-made hooks. `errorf` makes an error of its message (`fmt.Errorf`).
pub mod Guards
pub mod RateLimit
use mcp_multiplexer.Base.{
  ℕ, Text, text_eq, bytes, ◌==◌, ◌≡◌, refl, subst, ◌↔◌, if◌then◌else◌, Bool, true, false, ◌||◌,
  Option, none, some, List, [], ◌∷◌, ◌++◌, contains, join, arith, text_beq_iff, Bool-cases,
  Option-cases, inl, inr,
}
use mcp_multiplexer.Context.{Context, ContextValue, text, flag, texts, other, roles_key, value}
use mcp_multiplexer.Tool.{ToolInfo, CallResult}
use mcp_multiplexer.Errors.{Failure}
use mcp_multiplexer.Host.{Level, info, error}
use mcp_multiplexer.Options.{BeforeCallHook, AfterCallHook}

-- The loops of `RequireRoles`: whether one of the required roles is among those the caller has.
unfoldable pub has_role : List Text → List Text → Bool
has_role [] have = false
has_role (required ∷ roles) have = contains required have || has_role roles have

held_roles : Option ContextValue → Option (List Text)
held_roles (some (texts have)) = some have
held_roles _ = none

module _ {E : Type 0} (errorf : Text → E) where
  abbrev pub destructive_error : Text → E
  destructive_error name =
      errorf
        (bytes "mcpx/policy: tool " ++ (name ++ bytes " is marked destructive and is not allowed"))

  -- `%v` prints the roles between brackets, with spaces.
  abbrev denied : List Text → E
  denied roles = errorf (
      bytes "mcpx/policy: permission denied: required roles ["
      ++ (join (bytes " ") roles ++ bytes "] not satisfied"))

  roles_checked : List Text → Option (List Text) → Option E
  roles_checked roles none = some (denied roles)
  roles_checked roles (some have) = if has_role roles have then none else some (denied roles)

module _ {W E : Type 0} (errorf : Text → E) where
  unfoldable pub deny_destructive : BeforeCallHook W E
  deny_destructive ctx server tool ti args w =
      if ti.destructive
      then ((none, none, some (destructive_error errorf ti.name)), w)
      else ((none, none, none), w)

  unfoldable pub require_roles : List Text → BeforeCallHook W E
  unfolding held_roles roles_checked
  require_roles roles ctx server tool ti args w =
      ((none, none, roles_checked errorf roles (held_roles (value roles_key ctx))), w)

  unfoldable pub audit_log : (Level → Text → W → W) → AfterCallHook W E
  audit_log logger ctx server tool ti args result none dur w =
      logger info (bytes "mcpx/policy: call") w
  audit_log logger ctx server tool ti args result (some e) dur w =
      logger error (bytes "mcpx/policy: call failed") w

has_role_iff :
    (roles have : List Text)
    → (has_role roles have ≡ true)
      ↔ ((r : Text) × (contains r roles ≡ true) × (contains r have ≡ true))
unfolding has_role
has_role_iff [] have = (λ h. absurd (ground (arith, h)), λ (r, p, q). absurd (ground (arith, p)))
has_role_iff (x ∷ roles) have = (
  λ h. elim (Bool-cases (contains x have)) [
    | inl here ↦ (x, ground (arith, text_beq_iff x x), here)
    | inr there ↦
        let (r, p, q) = (has_role_iff roles have).0 (ground (arith, h, there)) in
        (r, ground (arith, p), q)
  ],
  λ (r, p, q). elim (Bool-cases (x == r)) [
    | inl here ↦ ground (arith, (text_beq_iff x r).0 here, q)
    | inr there ↦ ground (arith, (has_role_iff roles have).1 (r, ground (arith, p, there), q))
  ],
)

roles_checked_iff :
    {E : Type 0} (errorf : Text → E) (roles : List Text) (v : Option ContextValue)
    → (roles_checked errorf roles (held_roles v) ≡ none) ↔ (
        (have : List Text) × (v ≡ some (texts have))
        × ((r : Text) × (contains r roles ≡ true) × (contains r have ≡ true)))
unfolding roles_checked held_roles
roles_checked_iff errorf roles (some (texts have)) = (
  λ h. (have, refl, (has_role_iff roles have).0 (ground (arith, h))),
  λ (have', e, (r, p, q)).
      let same : have' ≡ have = ground (arith, e) in
      rw ((has_role_iff roles have).1 (r, p, subst (λ l. contains r l ≡ true) same q)) refl,
)
roles_checked_iff errorf roles none =
    (λ h. absurd (ground (arith, h)), λ (have, e, held). absurd (ground (arith, e)))
roles_checked_iff errorf roles (some _) =
    (λ h. absurd (ground (arith, h)), λ (have, e, held). absurd (ground (arith, e)))

-- The hook lets a call pass exactly when the context holds a list of roles that has one of the
-- required ones; it never changes the context, the result or the world.
pub require_roles_iff :
    {W E : Type 0} (errorf : Text → E) (roles : List Text) (ctx : Context) (server tool : Text)
    (ti : ToolInfo) (args : Text) (w : W)
    → (((require_roles errorf roles ctx server tool ti args w).0.2 ≡ none) ↔ (
        (have : List Text) × (value roles_key ctx ≡ some (texts have))
        × ((r : Text) × (contains r roles ≡ true) × (contains r have ≡ true))))
      × ((require_roles errorf roles ctx server tool ti args w).0.0 ≡ none)
      × ((require_roles errorf roles ctx server tool ti args w).0.1 ≡ none)
      × ((require_roles errorf roles ctx server tool ti args w).1 ≡ w)
unfolding require_roles
require_roles_iff errorf roles ctx server tool ti args w =
    (roles_checked_iff errorf roles (value roles_key ctx), refl, refl, refl)
