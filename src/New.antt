-- ===== src/New.antt =====
-- New of multiplexer.go up to the first connection: what it refuses, and the configuration that each
-- server is connected with.
pub mod Laws
pub mod Connect
pub mod Sessions
use mcp_multiplexer.Base.{
  Text, text_eq, if◌then◌else◌, Bool, true, false, ◌&&◌, Option, none, some, List, [], ◌∷◌,
  contains, lookup, ℤ, pos, leb_ℤ, insert, nat_eq,
}
use mcp_multiplexer.Json.{Fields}
use mcp_multiplexer.Config.{
  ServerConfig, MultiplexerConfig, KindSettings, validate, with_kind_defaults,
}
use mcp_multiplexer.Errors.{Failure, interval_not_positive, duplicate_server, auth_without_func}
use mcp_multiplexer.Options.{Options, AuthFunc}

-- The loop that validates the servers; `seen` holds the names so far.
unfoldable pub check_servers {ℓ} : {E : Type ℓ} → List ServerConfig → List Text → Option (Failure E)
check_servers [] seen = none
check_servers (sc ∷ servers) seen =
    let rest = check_servers servers (sc.name ∷ seen) in
    elim (validate sc) [
      | some e ↦ some e
      | none ↦ if contains sc.name seen then some (duplicate_server sc.name) else rest
    ]

-- The loop that looks for a server with an auth block.
unfoldable pub check_auth {ℓ} : {E : Type ℓ} → List ServerConfig → Option (Failure E)
check_auth [] = none
check_auth (sc ∷ servers) =
    let rest = check_auth servers in
    elim sc.auth [ none ↦ rest | some block ↦ some (auth_without_func sc.name) ]

or_else {ℓ} : {A : Type ℓ} → Option A → Option A → Option A
or_else (some a) o = some a
or_else none o = o

check_interval : {W E : Type 0} → Options W E → Option (Failure E)
check_interval o =
    if o.health_check_set && leb_ℤ o.health_check_interval (pos 0)
    then some interval_not_positive
    else none

check_auth_func : {W E : Type 0} → Option (AuthFunc W E) → List ServerConfig → Option (Failure E)
unfolding check_auth
check_auth_func none servers = check_auth servers
check_auth_func (some f) servers = none

-- The error that `New` returns before it connects, if there is one.
unfoldable pub new_error : {W E : Type 0} → Options W E → MultiplexerConfig → Option (Failure E)
unfolding check_interval check_servers check_auth_func or_else
new_error o cfg =
    or_else (check_interval o)
      (or_else (check_servers cfg.servers []) (check_auth_func o.auth_func cfg.servers))

-- The configuration under which a server is connected.
unfoldable pub effective_config : MultiplexerConfig → ServerConfig → ServerConfig
effective_config cfg sc = elim (lookup sc.kind cfg.kind_settings) [
  | none ↦ sc
  | some ks ↦ with_kind_defaults sc ks
]
