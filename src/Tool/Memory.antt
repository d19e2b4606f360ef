-- ===== src/Tool/Memory.antt =====
-- tool.go, Clone with its allocations: results, arrays of parts and arrays of bytes as cells of a
-- memory that pointers share.
pub mod Cells
pub mod Copied
pub mod Separation
use mcp_multiplexer.Base.{ℕ, suc, Text, Bool, Option, none, some, List, [], ◌∷◌, map, update}
use mcp_multiplexer.Tool.{ContentKind, ContentPart, CallResult}

-- A ContentPart in memory: `bin` (Data) and `raw` are slices, by the address of their array; `none`
-- is nil.
pub record PartCell : Type 0 where
  pub kind : ContentKind
  pub text : Text
  pub mime_type : Text
  pub bin : Option ℕ
  pub raw : Option ℕ

-- A CallResult in memory: `parts` is the array of the slice, `none` is nil.
pub record ResultCell : Type 0 where
  pub text : Text
  pub parts : Option ℕ
  pub is_error : Bool

-- Addresses from `next` on are free.
pub record Memory : Type 0 where
  pub next : ℕ
  pub result : ℕ → ResultCell
  pub array : ℕ → List PartCell
  pub buffer : ℕ → Text

-- `bytes.Clone`, under the test that the slice is not nil
unfoldable pub copy_bytes : Option ℕ → Memory → Option ℕ × Memory
copy_bytes none m = (none, m)
copy_bytes (some a) m =
    (some m.next, record m { next = suc m.next; buffer = update m.buffer m.next (m.buffer a) })

unfoldable pub copy_part : PartCell → Memory → PartCell × Memory
copy_part p m =
    let (bin, m') = copy_bytes p.bin m in
    let (raw, m'') = copy_bytes p.raw m' in (record p { bin = bin; raw = raw }, m'')

-- The loop over the parts.
unfoldable pub copy_parts : List PartCell → Memory → List PartCell × Memory
copy_parts [] m = ([], m)
copy_parts (p ∷ ps) m =
    let (q, m') = copy_part p m in let (qs, m'') = copy_parts ps m' in (q ∷ qs, m'')

-- What a slice holds; a nil slice ranges over nothing.
abbrev pub elements : Memory → Option ℕ → List PartCell
elements m none = []
elements m (some a) = m.array a

-- `make([]ContentPart, len(r.Parts))`, the loop that fills it, and the new CallResult.
unfoldable pub clone_cell : ResultCell → Memory → ℕ × Memory
clone_cell r m =
    let (parts, m') = copy_parts (elements m r.parts) (record m { next = suc m.next }) in
    (
      m'.next,
      record m' {
        next = suc m'.next;
        array = update m'.array m.next parts;
        result =
            update m'.result m'.next
              (record { text = r.text; parts = some m.next; is_error = r.is_error });
      },
    )

-- `(*CallResult).Clone`, from a pointer to a pointer.
unfoldable pub clone_at : Option ℕ → Memory → Option ℕ × Memory
clone_at none m = (none, m)
clone_at (some a) m = let (c, m') = clone_cell (m.result a) m in (some c, m')

-- What the cells show, as values.
abbrev pub show_bytes : Memory → Option ℕ → Option Text
show_bytes m none = none
show_bytes m (some a) = some (m.buffer a)

abbrev pub show_part : Memory → PartCell → ContentPart
show_part m p = record {
  kind = p.kind;
  text = p.text;
  mime_type = p.mime_type;
  bin = show_bytes m p.bin;
  raw = show_bytes m p.raw;
}

abbrev pub show : Memory → ℕ → CallResult
show m a = record {
  text = (m.result a).text;
  parts = map (show_part m) (elements m (m.result a).parts);
  is_error = (m.result a).is_error;
}
