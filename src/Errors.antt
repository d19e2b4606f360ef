-- ===== src/Errors.antt =====
-- The errors of the package, with the values that their messages show. `E` is the type of the
-- errors that come from outside: hooks, JSON, the MCP SDK.
use mcp_multiplexer.Base.{Text, bytes, List, [], ◌∷◌, ◌++◌, if◌then◌else◌, is_empty, join, ℤ}

pub data Failure {ℓ} (E : Type ℓ) : Type ℓ where
  -- caller.go, healthcheck.go, filter.go
  server_not_found : Text → List Text → Failure E
  hidden_server : Text → Failure E
  unknown_servers : List Text → List Text → Failure E
  tool_not_found : Text → Text → Failure E
  server_down : Text → Failure E
  invalid_json : E → Failure E
  invalid_args : List Text → List Text → Failure E
  hook_error : E → Failure E
  call_timeout : Text → Text → ℤ → Failure E
  upstream_error : Text → E → Failure E
  -- config.go, multiplexer.go
  name_required : Failure E
  binary_required : Failure E
  url_required : Failure E
  unknown_transport : Text → Failure E
  interval_not_positive : Failure E
  no_transport : Text → Failure E
  duplicate_server : Text → Failure E
  auth_without_func : Text → Failure E
  connect_failed : Text → E → Failure E
  list_tools_failed : Text → E → Failure E
  no_session : Text → Failure E
  unknown_server : Text → Failure E
  outside : E → Failure E

-- `(*ErrInvalidArgs).Error`
unfoldable pub invalid_args_message : List Text → List Text → Text
invalid_args_message bad schema =
    if is_empty schema
    then bytes "mcpx: argument(s) have invalid placeholder values: " ++ join (bytes ", ") bad
    else (let parts =
          (if is_empty bad
            then []
            else (bytes "placeholder values: " ++ join (bytes ", ") bad) ∷ [])
          ++ ((bytes "schema violations: " ++ join (bytes "; ") schema) ∷ []) in
        bytes "mcpx: invalid arguments: " ++ join (bytes "; ") parts)
