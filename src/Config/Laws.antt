-- ===== src/Config/Laws.antt =====
-- Which configurations are accepted, and what the defaults of a kind fill in.
use mcp_multiplexer.Base.{
  text_eq, text_beq_iff, ◌≡◌, ◌≢◌, ◌↔◌, ◌⊎◌, none, [], is_empty, is_empty_iff, arith, if◌then◌else◌,
}
use mcp_multiplexer.Config.{
  ServerConfig, KindSettings, with_kind_defaults, validate, transport_stdio, transport_http,
  transport_sse,
}

-- What `validate` asks for: a name, and a binary for stdio or a URL for HTTP and SSE.
abbrev pub IsComplete : ServerConfig → Type 0
IsComplete c =
    (c.name ≢ [])
    × (((c.transport ≡ transport_stdio) × (c.binary ≢ []))
        ⊎ (((c.transport ≡ transport_http) ⊎ (c.transport ≡ transport_sse)) × (c.url ≢ [])))

transports_differ :
    (transport_stdio ≢ transport_http)
    × (transport_stdio ≢ transport_sse)
    × (transport_http ≢ transport_sse)
transports_differ = ground arith

-- A configuration is accepted exactly when it has a name, and a binary if its transport is stdio or
-- a URL if its transport is HTTP or SSE; no other transport is accepted.
pub validate_iff {ℓ} : {E : Type ℓ} (c : ServerConfig) → (validate {E = E} c ≡ none) ↔ IsComplete c
unfolding validate
validate_iff c = ground (
  arith,
  is_empty_iff c.name,
  is_empty_iff c.binary,
  is_empty_iff c.url,
  text_beq_iff c.transport transport_stdio,
  text_beq_iff c.transport transport_http,
  text_beq_iff c.transport transport_sse,
  transports_differ,
)

-- A server's own transformers and field map win over those of its kind, each by itself; nothing
-- else changes, and applying the defaults again changes nothing.
pub with_kind_defaults_lem :
    (c : ServerConfig) (ks : KindSettings)
    → (with_kind_defaults c ks ≡ record c {
      args_transformers =
          if is_empty c.args_transformers then ks.args_transformers else c.args_transformers;
      field_map = if is_empty c.field_map then ks.field_map else c.field_map;
    })
      × (with_kind_defaults (with_kind_defaults c ks) ks ≡ with_kind_defaults c ks)
unfolding with_kind_defaults
with_kind_defaults_lem c ks = ground arith
