-- ===== src/Mux.antt =====
-- The state of multiplexer.go: a server's entry and the multiplexer.
pub mod Queries
pub mod KindGroups
pub mod Listed
pub mod Order
use mcp_multiplexer.Base.{ℕ, Text, Bool, Option, List}
use mcp_multiplexer.Tool.{ToolInfo}
use mcp_multiplexer.Host.{Session}
use mcp_multiplexer.Config.{ServerConfig}
use mcp_multiplexer.Options.{Options}

pub data ServerState : Type 0 where
  connected down : ServerState

-- `refresh_ch` is the channel of capacity 1: `none` for a nil channel, else whether a signal waits.
pub record ServerEntry : Type 0 where
  pub config : ServerConfig
  pub session : Option Session
  pub tools : List ToolInfo
  pub state : ServerState
  pub reconnecting : Bool
  pub refresh_ch : Option Bool

-- What calls of tools change (the cache, the warnings given) is kept apart, in `Caller.Run`.
pub record Mux (W E : Type 0) : Type 0 where
  pub servers : List (Text × ServerEntry)
  pub kind_hints : List (Text × List Text)
  pub opts : Options W E
