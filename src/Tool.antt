-- ===== src/Tool.antt =====
-- tool.go: tool metadata, call results, and the deep copy of a result.
pub mod Memory
use mcp_multiplexer.Base.{Text, Bool, false, Option, none, some, List, [], ◌∷◌, ◌≡◌, refl}

-- `InputSchema` is raw JSON; a nil slice and an empty one are both the empty text. A nil `Custom`
-- reads as the empty map.
pub record ToolInfo : Type 0 where
  pub server : Text
  pub name : Text
  pub description : Text
  pub input_schema : Text
  pub read_only : Bool
  pub write : Bool
  pub destructive : Bool
  pub idempotent : Bool
  pub open_world : Bool
  pub custom : List (Text × Text)

-- `ToolInfo{}`
abbrev pub zero_info : ToolInfo
zero_info = record {
  server = [];
  name = [];
  description = [];
  input_schema = [];
  read_only = false;
  write = false;
  destructive = false;
  idempotent = false;
  open_world = false;
  custom = [];
}

pub data ContentKind : Type 0 where
  content_text content_image content_other : ContentKind

-- `none` is a nil slice of bytes.
pub record ContentPart : Type 0 where
  pub kind : ContentKind
  pub text : Text
  pub mime_type : Text
  pub bin : Option Text
  pub raw : Option Text

pub record CallResult : Type 0 where
  pub text : Text
  pub parts : List ContentPart
  pub is_error : Bool

-- `&CallResult{}`
abbrev pub empty_result : CallResult
empty_result = record { text = []; parts = []; is_error = false }

-- `bytes.Clone`, under the test that the slice is not nil
clone_bytes : Option Text → Option Text
clone_bytes none = none
clone_bytes (some b) = some b

clone_part : ContentPart → ContentPart
unfolding clone_bytes
clone_part p = record p { bin = clone_bytes p.bin; raw = clone_bytes p.raw }

clone_parts : List ContentPart → List ContentPart
unfolding clone_part
clone_parts [] = []
clone_parts (p ∷ ps) = clone_part p ∷ clone_parts ps

-- `(*CallResult).Clone`; `none` is the nil receiver.
unfoldable pub clone : Option CallResult → Option CallResult
unfolding clone_parts
clone none = none
clone (some r) = some (record { text = r.text; parts = clone_parts r.parts; is_error = r.is_error })

clone_bytes-eq_self : (b : Option Text) → clone_bytes b ≡ b
unfolding clone_bytes
clone_bytes-eq_self none = refl
clone_bytes-eq_self (some b) = refl

clone_parts-eq_self : (ps : List ContentPart) → clone_parts ps ≡ ps
unfolding clone_parts
clone_parts-eq_self [] = refl
clone_parts-eq_self (p ∷ ps) =
    rw (clone_bytes-eq_self p.bin, clone_bytes-eq_self p.raw, clone_parts-eq_self ps) refl

-- A copy has the contents of the original.
pub clone-eq_self : (r : Option CallResult) → clone r ≡ r
unfolding clone
clone-eq_self none = refl
clone-eq_self (some r) = rw (clone_parts-eq_self r.parts) refl
