-- ===== src/Config.antt =====
-- config.go: the configuration of the servers, its validation and the defaults of a kind.
pub mod Laws
use mcp_multiplexer.Base.{
  ℕ, Text, text_eq, bytes, ◌==◌, if◌then◌else◌, Bool, Option, none, some, List, [], ◌∷◌, is_empty,
  ℤ,
}
use mcp_multiplexer.Json.{Fields}
use mcp_multiplexer.Errors.{
  Failure, name_required, binary_required, url_required, unknown_transport,
}

pub record KindSettings : Type 0 where
  pub args_transformers : List Text
  pub field_map : List (Text × Text)

-- `transport` is a string type; `auth` is nil or a map; a nil map of texts reads as an empty one.
pub record ServerConfig : Type 0 where
  pub name : Text
  pub kind : Text
  pub transport : Text
  pub binary : Text
  pub args : List Text
  pub env : List Text
  pub url : Text
  pub call_timeout : ℤ
  pub auth : Option Fields
  pub args_transformers : List Text
  pub field_map : List (Text × Text)
  pub resource_singular : List (Text × Text)

pub record MultiplexerConfig : Type 0 where
  pub servers : List ServerConfig
  pub kind_settings : List (Text × KindSettings)
  pub kind_hints : List (Text × List Text)

abbrev pub transport_stdio : Text
transport_stdio = bytes "stdio"

abbrev pub transport_http : Text
transport_http = bytes "http"

abbrev pub transport_sse : Text
transport_sse = bytes "sse"

unfoldable pub with_kind_defaults : ServerConfig → KindSettings → ServerConfig
with_kind_defaults c ks =
    let c' =
      if is_empty c.args_transformers
      then record c { args_transformers = ks.args_transformers }
      else c in
    if is_empty c'.field_map then record c' { field_map = ks.field_map } else c'

-- `validate`; `none` is a nil error.
unfoldable pub validate {ℓ} : {E : Type ℓ} → ServerConfig → Option (Failure E)
validate c =
    if is_empty c.name
    then some name_required
    else if c.transport == transport_stdio
    then (if is_empty c.binary then some binary_required else none)
    else if c.transport == transport_http
    then (if is_empty c.url then some url_required else none)
    else if c.transport == transport_sse
    then (if is_empty c.url then some url_required else none)
    else some (unknown_transport c.transport)
