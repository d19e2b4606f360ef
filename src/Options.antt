-- ===== src/Options.antt =====
-- options.go, hooks.go, metrics.go and logger.go: the hooks, sinks and settings of a multiplexer,
-- and the options that set them.
pub mod Laws
use mcp_multiplexer.Base.{
  ℕ, ◌*◌, Text, text_eq, bytes, Bool, true, false, Option, none, some, List, [], ◌∷◌, ◌++◌,
  if◌then◌else◌, is_empty, ltb_ℤ, leb_ℤ, ℤ, pos, insert, insert_all,
}
use mcp_multiplexer.Json.{Fields, GoMap}
use mcp_multiplexer.Context.{Context}
use mcp_multiplexer.Tool.{ToolInfo, CallResult}
use mcp_multiplexer.Transform.{Custom}
use mcp_multiplexer.Errors.{Failure}
use mcp_multiplexer.Host.{Level, Request}

pub data RejectReason : Type 0 where
  unknown_server unknown_tool server_down before_hook_abort invalid_args : RejectReason

-- A callback that computes a key from the call that it is given; it is taken to do no more.
abbrev pub KeyFunc : Type 0
KeyFunc = Context → Text → Text → Text → Text

-- A hook may change the world `W`; what it returns is in the source's order.
module _ (W E : Type 0) where
  abbrev pub BeforeCallHook : Type 0
  BeforeCallHook =
      Context
      → Text
      → Text
      → ToolInfo
      → Text
      → W
      → (Option Context × Option CallResult × Option E) × W

  abbrev pub AfterCallHook : Type 0
  AfterCallHook =
      Context → Text → Text → ToolInfo → Text → Option CallResult → Option (Failure E) → ℕ → W → W

  -- The result is mutated in place, so it comes back beside the error.
  abbrev pub ResultTransformHook : Type 0
  ResultTransformHook =
      Context → Text → Text → ToolInfo → CallResult → W → (CallResult × Option E) × W

  abbrev pub MetaEnricher : Type 0
  MetaEnricher = Text → ToolInfo → W → ToolInfo × W

  -- A panic in the callback is recovered: its effect is the world that it left.
  abbrev pub OnRejectedCallFunc : Type 0
  OnRejectedCallFunc = Context → Text → Text → RejectReason → Failure E → W → W

  abbrev pub AuthFunc : Type 0
  AuthFunc = Context → Text → Request → Fields → W → (Option E × Request) × W

  -- `Metrics`; panics are recovered.
  pub record Metrics : Type 0 where
    pub record_call : Text → Text → ℕ → Option (Failure E) → W → W
    pub record_tool_list : Text → ℕ → W → W

  -- A `Cache` of the caller's own.
  pub record UserCache : Type 0 where
    pub get : Context → Text → W → Option CallResult × W
    pub set : Context → Text → CallResult → ℤ → W → W

  pub record Options : Type 0 where
    pub logger : Level → Text → W → W
    pub before_call : List BeforeCallHook
    pub after_call : List AfterCallHook
    pub result_transform : List ResultTransformHook
    pub meta_enrichers : List MetaEnricher
    pub custom_transformers : Custom
    pub resource_singular : List (Text × Text)
    pub auth_func : Option AuthFunc
    pub metrics : Metrics
    pub call_timeout : ℤ
    pub http_retry_max : ℤ
    pub client_name : Text
    pub client_version : Text
    pub health_check_interval : ℤ
    pub health_check_set : Bool
    pub on_reconnect : Option (Text → Option (Failure E) → W → W)
    pub on_tools_changed : Option (Text → List ToolInfo → List ToolInfo → W → W)
    pub schema_validation : Bool
    pub cache : Option UserCache
    pub cache_disabled : Bool
    pub cache_ttl : ℤ
    pub cache_size : ℤ
    pub cache_key : Option KeyFunc
    pub on_rejected_call : Option OnRejectedCallFunc
    pub on_connect : Option (Text → List ToolInfo → W → W)

abbrev pub second : ℕ
second = 1000000000

-- `defaultClientVersion`, over the version of the main module in the build info, if there is any.
unfoldable pub default_client_version : Option Text → Text
default_client_version none = bytes "dev"
default_client_version (some v) =
    if is_empty v then bytes "dev" else if text_eq.test v (bytes "(devel)") then bytes "dev" else v

module _ (W E : Type 0) where
  -- A call of a `With…` function; `none` is a nil argument.
  pub data Setting : Type 0 where
    with_logger : Option (Level → Text → W → W) → Setting
    with_before_call : BeforeCallHook W E → Setting
    with_after_call : AfterCallHook W E → Setting
    with_result_transform : ResultTransformHook W E → Setting
    with_meta_enricher : MetaEnricher W E → Setting
    with_args_transformer : Text → Option (GoMap → GoMap) → Setting
    with_call_timeout : ℤ → Setting
    with_http_retry_max : ℤ → Setting
    with_auth_func : Option (AuthFunc W E) → Setting
    with_health_check : ℤ → Setting
    with_on_reconnect : Option (Text → Option (Failure E) → W → W) → Setting
    with_on_tools_changed : Option (Text → List ToolInfo → List ToolInfo → W → W) → Setting
    with_metrics : Option (Metrics W E) → Setting
    with_resource_singular : List (Text × Text) → Setting
    with_client_identity : Text → Text → Setting
    with_schema_validation : Setting
    with_cache : Option (UserCache W E) → Setting
    with_cache_ttl : ℤ → Setting
    with_cache_size : ℤ → Setting
    without_cache : Setting
    with_cache_key : Option (KeyFunc) → Setting
    with_on_rejected_call : Option (OnRejectedCallFunc W E) → Setting
    with_on_connect : Option (Text → List ToolInfo → W → W) → Setting

module _ {W E : Type 0} where
  abbrev pub nop_metrics : Metrics W E
  nop_metrics = record {
    record_call = λ server tool dur e w. w;
    record_tool_list = λ server count w. w;
  }

  unfoldable pub default_options : Option Text → Options W E
  unfolding default_client_version
  default_options build = record {
    logger = λ level message w. w;
    before_call = [];
    after_call = [];
    result_transform = [];
    meta_enrichers = [];
    custom_transformers = [];
    resource_singular = [];
    auth_func = none;
    metrics = nop_metrics;
    call_timeout = pos (30 * second);
    http_retry_max = pos 5;
    client_name = bytes "mcpx";
    client_version = default_client_version build;
    health_check_interval = pos 0;
    health_check_set = false;
    on_reconnect = none;
    on_tools_changed = none;
    schema_validation = false;
    cache = none;
    cache_disabled = false;
    cache_ttl = pos (30 * second);
    cache_size = pos 256;
    cache_key = none;
    on_rejected_call = none;
    on_connect = none;
  }

  -- The `Option` that the `With…` function returns, applied.
  unfoldable pub apply : Setting W E → Options W E → Options W E
  apply (with_logger none) o = o
  apply (with_logger (some l)) o = record o { logger = l }
  apply (with_before_call h) o = record o { before_call = o.before_call ++ h ∷ [] }
  apply (with_after_call h) o = record o { after_call = o.after_call ++ h ∷ [] }
  apply (with_result_transform h) o = record o { result_transform = o.result_transform ++ h ∷ [] }
  apply (with_meta_enricher h) o = record o { meta_enrichers = o.meta_enrichers ++ h ∷ [] }
  apply (with_args_transformer name fn) o = record o {
    custom_transformers = insert name fn o.custom_transformers;
  }
  apply (with_call_timeout d) o = if ltb_ℤ (pos 0) d then record o { call_timeout = d } else o
  apply (with_http_retry_max n) o = if leb_ℤ (pos 0) n then record o { http_retry_max = n } else o
  apply (with_auth_func fn) o = record o { auth_func = fn }
  apply (with_health_check d) o = record o { health_check_interval = d; health_check_set = true }
  apply (with_on_reconnect fn) o = record o { on_reconnect = fn }
  apply (with_on_tools_changed fn) o = record o { on_tools_changed = fn }
  apply (with_metrics none) o = o
  apply (with_metrics (some m)) o = record o { metrics = m }
  apply (with_resource_singular m) o = record o {
    resource_singular = insert_all o.resource_singular m;
  }
  apply (with_client_identity name version) o = record o {
    client_name = if is_empty name then o.client_name else name;
    client_version = if is_empty version then o.client_version else version;
  }
  apply with_schema_validation o = record o { schema_validation = true }
  apply (with_cache none) o = o
  apply (with_cache (some c)) o = record o { cache = some c; cache_disabled = false }
  apply (with_cache_ttl d) o = if ltb_ℤ (pos 0) d then record o { cache_ttl = d } else o
  apply (with_cache_size n) o = if ltb_ℤ (pos 0) n then record o { cache_size = n } else o
  apply without_cache o = record o { cache = none; cache_disabled = true }
  apply (with_cache_key fn) o = record o { cache_key = fn }
  apply (with_on_rejected_call fn) o = record o { on_rejected_call = fn }
  apply (with_on_connect fn) o = record o { on_connect = fn }

  -- `for _, opt := range opts { opt(o) }`
  unfoldable pub apply_settings : List (Setting W E) → Options W E → Options W E
  unfolding apply
  apply_settings [] o = o
  apply_settings (s ∷ ss) o = apply_settings ss (apply s o)
