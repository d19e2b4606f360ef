-- ===== src/TestServer/Laws.antt =====
-- What the multiplexer sees of a test server, and what the server's check of its options accepts.
use mcp_multiplexer.Base.{
  Text, text_eq, ◌≡◌, refl, Bool, true, false, not, ◌&&◌, Option, none, some, [], ◌∷◌, arith, join,
  lookup,
}
use mcp_multiplexer.Json.{Fields}
use mcp_multiplexer.Context.{Context}
use mcp_multiplexer.Host.{Host, ok, RawResult, text_content}
use mcp_multiplexer.Fetch.{raw_info}
use mcp_multiplexer.Caller.Results.{build_result}
use mcp_multiplexer.TestServer.{ToolSpec, Sdk, Server, tool_of, tool_handler, request_args}

-- A hint that is left out reads as the default, false or, for `destructive`, true.
abbrev pub or_default : Bool → Option Bool → Bool
or_default d none = d
or_default d (some b) = b

abbrev pub marshalled : Text → Option (Option Text) → Text
marshalled default none = default
marshalled default (some none) = []
marshalled default (some (some s)) = s

module _ {S W E : Type 0} (host : Host W E) (sdk : Sdk S W E) where
  -- What is specified for a tool of the test server is what the multiplexer reads from the tool that
  -- the server advertises: name, description and schema, and each hint, with its default where the
  -- specification leaves it out (for `destructive` true, also for a read-only tool), whether or not
  -- other hints are given; `write` is neither read-only nor destructive.
  pub raw_info-tool_of :
      (server : Text) (spec : ToolSpec W E)
      → raw_info server (tool_of host sdk spec) ≡ record {
        server = server;
        name = spec.name;
        description = spec.description;
        input_schema = marshalled sdk.object_schema spec.input_schema;
        read_only = or_default false spec.read_only;
        write = not (or_default false spec.read_only) && not (or_default true spec.destructive);
        destructive = or_default true spec.destructive;
        idempotent = or_default false spec.idempotent;
        open_world = or_default false spec.open_world;
        custom = [];
      }
  unfolding raw_info tool_of
  raw_info-tool_of server spec = ground arith

  -- A tool with no delay and no forced error: the text that its handler returns for the arguments of
  -- the request is the text, and the only part, of the result that the multiplexer makes of the
  -- server's reply.
  pub tool_handler-build_result :
      (s : Server S W E) (spec : ToolSpec W E) (f : Context → Fields → W → (Text × Option E) × W)
      (ctx : Context) (args : Option Text) (w w' : W) (text : Text)
      → lookup spec.name s.delays ≡ none
      → lookup spec.name s.errors ≡ none
      → spec.handler ≡ some f
      → f ctx (request_args host sdk args) w ≡ ((text, none), w')
      → (r : RawResult) × (tool_handler host sdk s spec ctx args w ≡ (ok r, w'))
        × ((build_result (some r)).text ≡ text)
        × ((build_result (some r)).is_error ≡ false)
  unfolding tool_handler build_result join
  tool_handler-build_result s spec f ctx args w w' text d e h r = (
    record { content = text_content text ∷ []; is_error = false },
    ground (arith, d, e, h, r),
    refl,
    refl,
  )
