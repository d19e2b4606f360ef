-- ===== src/Transport.antt =====
-- newTransport of transport.go: how a server is reached. The transports of the MCP SDK and the
-- client of go-retryablehttp are what they are built with.
use mcp_multiplexer.Base.{
  Text, text_eq, ◌*◌, ◌==◌, if◌then◌else◌, is_empty, Option, none, some, List, ◌++◌, ℤ, pos,
}
use mcp_multiplexer.Json.{Fields}
use mcp_multiplexer.Config.{ServerConfig, transport_stdio, transport_http, transport_sse}
use mcp_multiplexer.Errors.{Failure, no_transport}
use mcp_multiplexer.Host.{Answer, ok, err, Level}
use mcp_multiplexer.Options.{Options, AuthFunc, second}

-- An `*exec.Cmd`; with no `env` the command inherits the environment.
pub record Command : Type 0 where
  pub binary : Text
  pub args : List Text
  pub env : Option (List Text)

-- `authFuncRoundTripper`, around the transport of the client; `fn` may be a nil function.
pub record AuthLayer (W E : Type 0) : Type 0 where
  pub server : Text
  pub block : Fields
  pub fn : Option (AuthFunc W E)

-- The client that `retryableHTTPClient` builds.
pub record HttpClient (W E : Type 0) : Type 0 where
  pub retry_max : ℤ
  pub retry_wait_min : ℤ
  pub retry_wait_max : ℤ
  pub logger : Level → Text → W → W
  pub auth : Option (AuthLayer W E)

pub data Transport (W E : Type 0) : Type 0 where
  command : Command → Transport W E
  streamable : Text → HttpClient W E → Transport W E
  sse : Text → HttpClient W E → Transport W E

-- `newStdioTransport`; `environ` is `os.Environ()`.
stdio_transport : {W E : Type 0} → List Text → ServerConfig → Transport W E
stdio_transport environ cfg = command (record {
  binary = cfg.binary;
  args = cfg.args;
  env = if is_empty cfg.env then none else some (environ ++ cfg.env);
})

module _ {W E : Type 0} (opts : Options W E) where
  auth_layer : ServerConfig → Option Fields → Option (AuthLayer W E)
  auth_layer cfg none = none
  auth_layer cfg (some block) =
      some (record { server = cfg.name; block = block; fn = opts.auth_func })

  -- `retryableHTTPClient`
  unfoldable pub http_client : ServerConfig → HttpClient W E
  unfolding auth_layer
  http_client cfg = record {
    retry_max = opts.http_retry_max;
    retry_wait_min = pos second;
    retry_wait_max = pos (8 * second);
    logger = opts.logger;
    auth = auth_layer cfg cfg.auth;
  }

  -- `newTransport`
  unfoldable pub new_transport : List Text → ServerConfig → Answer (Failure E) (Transport W E)
  unfolding stdio_transport http_client
  new_transport environ cfg =
      if cfg.transport == transport_stdio
      then ok (stdio_transport environ cfg)
      else if cfg.transport == transport_http
      then ok (streamable cfg.url (http_client cfg))
      else if cfg.transport == transport_sse
      then ok (sse cfg.url (http_client cfg))
      else err (no_transport cfg.transport)
