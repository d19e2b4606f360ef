-- ===== src/Json.antt =====
-- JSON documents as `encoding/json` decodes them into `any`, and the Go map `map[string]any` of
-- tool arguments (caller.go, transform.go, validate.go).
pub mod Access
pub mod Rename
use mcp_multiplexer.Base.{ℕ, Bool, Text, Option, none, some}

-- A number is a float64, kept as its bit pattern: the code never looks into one.
mutual
  pub data Value : Type 0 where
    null : Value
    bool : Bool → Value
    num : ℕ → Value
    str : Text → Value
    arr : Items → Value
    obj : Fields → Value

  pub data Items : Type 0 where
    nil : Items
    item : Value → Items → Items

  -- A map. The order of the fields stands for the order in which a `range` visits them.
  pub data Fields : Type 0 where
    end : Fields
    field : Text → Value → Fields → Fields

-- A `map[string]any`, which may be nil.
abbrev pub GoMap : Type 0
GoMap = Option Fields

-- A range over a nil map, and a read of it, find nothing.
abbrev pub contents : GoMap → Fields
contents none = end
contents (some m) = m

-- `json.Marshal` writes a nil map as null.
abbrev pub map_value : GoMap → Value
map_value none = null
map_value (some m) = obj m
