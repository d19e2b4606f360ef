-- ===== src/New/Laws.antt =====
-- Exactly which configurations New accepts.
use mcp_multiplexer.Base.{
  Text, text_eq, ◌≡◌, ◌≢◌, refl, ◌↔◌, ◌⊎◌, inl, inr, true, false, Option, none, some, List, [], ◌∷◌,
  contains, All, pos, ltb_ℤ, arith, Option-cases,
}
use mcp_multiplexer.Config.{ServerConfig, MultiplexerConfig, validate}
use mcp_multiplexer.Config.Laws.{IsComplete, validate_iff}
use mcp_multiplexer.Options.{Options, AuthFunc}
use mcp_multiplexer.New.{
  check_servers, check_auth, or_else, check_interval, check_auth_func, new_error,
}

abbrev server_name : ServerConfig → Text
server_name sc = sc.name

-- No name stands twice, and none is among those seen.
abbrev pub IsNew : List Text → List ServerConfig → Type 0
IsNew seen [] = Unit
IsNew seen (sc ∷ servers) = (contains sc.name seen ≡ false) × IsNew (sc.name ∷ seen) servers

check_servers_iff :
    {E : Type 0} (servers : List ServerConfig) (seen : List Text)
    → (check_servers {E = E} servers seen ≡ none) ↔ (All IsComplete servers × IsNew seen servers)
unfolding check_servers
check_servers_iff [] seen = (λ h. (tt, tt), λ h. refl)
check_servers_iff {E} (sc ∷ servers) seen = elim (Option-cases (validate {E = E} sc)) [
  | inr (x, e) ↦ (
    λ h. absurd (ground (arith, h, e)),
    λ (c, n). absurd (ground (arith, e, (validate_iff {E = E} sc).1 c.0)),
  )
  | inl e ↦ (
    λ h.
        let (complete, new) =
          (check_servers_iff {E = E} servers (sc.name ∷ seen)).0 (ground (arith, h, e)) in
        (((validate_iff sc).0 e, complete), (ground (arith, h, e), new)),
    λ (c, n).
        ground (arith, e, n.0, (check_servers_iff {E = E} servers (sc.name ∷ seen)).1 (c.1, n.1)),
  )
]

check_auth_iff :
    {E : Type 0} (servers : List ServerConfig)
    → (check_auth {E = E} servers ≡ none) ↔ All (λ sc. sc.auth ≡ none) servers
unfolding check_auth
check_auth_iff [] = (λ h. tt, λ h. refl)
check_auth_iff {E} (sc ∷ servers) = elim (Option-cases sc.auth) [
  | inr (x, e) ↦ (λ h. absurd (ground (arith, h, e)), λ (c, n). absurd (ground (arith, e, c)))
  | inl e ↦ (
    λ h. (e, (check_auth_iff {E = E} servers).0 (ground (arith, h, e))),
    λ (c, n). ground (arith, e, (check_auth_iff {E = E} servers).1 n),
  )
]

or_else_iff : {A : Type 0} (a b : Option A) → (or_else a b ≡ none) ↔ ((a ≡ none) × (b ≡ none))
unfolding or_else
or_else_iff (some a) b = (λ h. absurd (ground (arith, h)), λ (p, q). absurd (ground (arith, p)))
or_else_iff none b = (λ h. (refl, h), λ (p, q). q)

check_interval_iff :
    {W E : Type 0} (o : Options W E)
    → (check_interval o ≡ none)
      ↔ ((o.health_check_set ≡ false) ⊎ (ltb_ℤ (pos 0) o.health_check_interval ≡ true))
unfolding check_interval
check_interval_iff o = ground arith

check_auth_func_iff :
    {W E : Type 0} (f : Option (AuthFunc W E)) (servers : List ServerConfig)
    → (check_auth_func f servers ≡ none) ↔ ((f ≢ none) ⊎ All (λ sc. sc.auth ≡ none) servers)
unfolding check_auth_func
check_auth_func_iff (some f) servers = (λ h. inl (λ e. ground (arith, e)), λ h. refl)
check_auth_func_iff none servers = (
  λ h. inr ((check_auth_iff servers).0 h),
  λ h. elim h [ inl bad ↦ absurd (bad refl) | inr free ↦ (check_auth_iff servers).1 free ],
)

-- `New` goes on to connect exactly when a health check that was asked for has a positive interval,
-- every server's configuration is complete, no two servers have one name, and no server has an auth
-- block or there is an AuthFunc.
pub new_error_iff :
    {W E : Type 0} (o : Options W E) (cfg : MultiplexerConfig)
    → (new_error o cfg ≡ none) ↔ (
        ((o.health_check_set ≡ false) ⊎ (ltb_ℤ (pos 0) o.health_check_interval ≡ true))
        × (All IsComplete cfg.servers × IsNew [] cfg.servers)
        × ((o.auth_func ≢ none) ⊎ All (λ sc. sc.auth ≡ none) cfg.servers))
unfolding new_error
new_error_iff o cfg =
    let (split, join) = or_else_iff (check_interval o) _ in
    let (split', join') = or_else_iff (check_servers cfg.servers []) _ in
    let interval = check_interval_iff o in
    let servers = check_servers_iff cfg.servers [] in
    let auth = check_auth_func_iff o.auth_func cfg.servers in
    (
      λ h. let (a, b) = split h in let (c, d) = split' b in (interval.0 a, servers.0 c, auth.0 d),
      λ (a, c, d). join (interval.1 a, join' (servers.1 c, auth.1 d)),
    )
