-- ===== src/Tests/Settings.antt =====
-- Configurations and options on small inputs.
use mcp_multiplexer.Base.{
  ℕ, ◌≡◌, refl, ◌↔◌, Text, text_eq, text_beq, bytes, none, some, List, [], ◌∷◌, ◌++◌, pos, negsuc,
}
use mcp_multiplexer.Errors.{url_required}
use mcp_multiplexer.Config.{ServerConfig, KindSettings, validate, transport_http}
use mcp_multiplexer.Config.Laws.{IsComplete}
use mcp_multiplexer.Options.{
  Setting, BeforeCallHook, apply_settings, default_options, with_before_call, with_call_timeout,
  with_client_identity, without_cache,
}
use mcp_multiplexer.Base.{◌*◌, ◌^◌, min}
use mcp_multiplexer.Options.{second}
use mcp_multiplexer.Health.{backoff, backoff_lem}
use mcp_multiplexer.New.{new_error}
use mcp_multiplexer.New.Laws.{new_error_iff, IsNew}
use mcp_multiplexer.Auth.{bearer, auth_round_trip, set_header}
use mcp_multiplexer.Auth.Laws.{bearer-round_trip}
use mcp_multiplexer.Host.{Request, Answer, ok, err}
use mcp_multiplexer.Json.{Fields, field, end, str}
use mcp_multiplexer.Json.Access.{get}
use mcp_multiplexer.Base.{All, ltb_ℤ, ◌+◌, insert, none, some, ◌⊎◌, ◌≢◌, true, false}
use mcp_multiplexer.Errors.{duplicate_server}
use mcp_multiplexer.Config.{MultiplexerConfig}
use mcp_multiplexer.Options.{default_options, Options}
use mcp_multiplexer.Options.Laws.{IsSane, apply_settings-IsSane}

abbrev pub remote : ServerConfig
remote = record {
  name = bytes "k8s";
  kind = bytes "kubernetes";
  transport = transport_http;
  binary = [];
  args = [];
  env = [];
  url = bytes "http://k8s";
  call_timeout = pos 0;
  auth = none;
  args_transformers = [];
  field_map = [];
  resource_singular = [];
}

validate_run : validate {E = ℕ} (record remote { url = [] }) ≡ some url_required
unfolding validate text_beq
validate_run = refl

abbrev camel_kind : KindSettings
camel_kind = record { args_transformers = bytes "snake_to_camel" ∷ []; field_map = [] }

abbrev hook : ℕ → BeforeCallHook ℕ Text
hook n = λ ctx server tool info args w. ((none, none, none), n)

abbrev settings : List (Setting ℕ Text)
settings =
    with_before_call (hook 1)
    ∷ with_call_timeout (negsuc 0)
    ∷ with_client_identity [] (bytes "v1")
    ∷ without_cache
    ∷ with_before_call (hook 2)
    ∷ []

timeout_run : (apply_settings settings (default_options none)).call_timeout ≡ pos 30000000000
unfolding apply_settings default_options
timeout_run = refl

apply_settings-IsSane_example : IsSane (apply_settings settings (default_options none))
apply_settings-IsSane_example = apply_settings-IsSane none settings

backoff_example : backoff 7 ≡ pos (min (2 ^ 6) 60 * second)
backoff_example = backoff_lem 6

abbrev cfg : MultiplexerConfig
cfg = record {
  servers = remote ∷ record remote { name = bytes "vm" } ∷ [];
  kind_settings = [];
  kind_hints = [];
}

abbrev defaults : Options ℕ Text
defaults = default_options none

new_error_run :
    (new_error defaults cfg ≡ none)
    × (new_error defaults (record cfg { servers = remote ∷ remote ∷ [] })
        ≡ some (duplicate_server (bytes "k8s")))
unfolding new_error default_options validate text_beq
new_error_run = (refl, refl)

new_error_iff_example : (new_error defaults cfg ≡ none) ↔ (
    ((defaults.health_check_set ≡ false) ⊎ (ltb_ℤ (pos 0) defaults.health_check_interval ≡ true))
    × (All IsComplete cfg.servers × IsNew [] cfg.servers)
    × ((defaults.auth_func ≢ none) ⊎ All (λ sc. sc.auth ≡ none) cfg.servers))
new_error_iff_example = new_error_iff defaults cfg

-- A server that answers with the header it is sent.
abbrev echo : Request → ℕ → Answer Text (List (Text × Text)) × ℕ
echo r w = (ok r.header, w + 1)

abbrev auth_block : Fields
auth_block = field (bytes "token") (str (bytes "t")) end

abbrev request : Request
request = record { url = bytes "http://k8s"; header = []; body = [] }

abbrev trip : Fields → Answer Text (List (Text × Text)) × ℕ
trip block =
    auth_round_trip echo (bearer (λ m. m) (λ h. h)) (λ name e. name ++ e) (bytes "k8s") block []
      request 0

trip_run :
    (trip auth_block ≡ (ok ((bytes "Authorization", bytes "Bearer t") ∷ []), 1))
    × (trip end ≡ (err (bytes "k8sauth.Bearer: missing data[\"token\"]"), 0))
unfolding auth_round_trip bearer get text_beq set_header insert
trip_run = (refl, refl)

bearer-round_trip_example :
    ((token : Text) × (token ≢ [])
      × (get (bytes "token") auth_block ≡ some (str token))
      × (trip auth_block
          ≡ echo
              (record request {
                header = insert (bytes "Authorization") (bytes "Bearer " ++ token) request.header;
              })
              0))
    ⊎ ((e : Text) × (trip auth_block ≡ (err e, 0)))
bearer-round_trip_example =
    bearer-round_trip (λ m. m) (λ h. h) echo (λ name e. name ++ e) (bytes "k8s") auth_block []
      request 0
