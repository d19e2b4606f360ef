-- ===== src/Tests/Copies.antt =====
-- A result with an image in memory, copied, while its owner writes to it.
use mcp_multiplexer.Base.{ℕ, ◌≡◌, ◌≤◌, refl, bytes, false, none, some, [], ◌∷◌, update, arith}
use mcp_multiplexer.Tool.{content_image}
use mcp_multiplexer.Tool.Memory.{
  Memory, PartCell, copy_bytes, copy_part, copy_parts, clone_cell, clone_at, show,
}
use mcp_multiplexer.Tool.Memory.Cells.{Agree, Owns}
use mcp_multiplexer.Tool.Memory.Separation

-- Address 0 holds the bytes of the image, 1 the array of parts, 2 the result.
abbrev image : PartCell
image = record {
  kind = content_image;
  text = [];
  mime_type = bytes "image/png";
  bin = some 0;
  raw = none;
}

abbrev memory : Memory
memory = record {
  next = 3;
  result = λ a. record { text = bytes "[image: image/png]"; parts = some 1; is_error = false };
  array = λ a. image ∷ [];
  buffer = λ a. bytes "pixels";
}

abbrev stored : Memory
stored = (clone_at (some 2) memory).1

-- The owner of the original overwrites the image.
abbrev later : Memory
later = record stored { buffer = update stored.buffer 0 (bytes "other") }

copies : Unit {0}
unfolding copy_bytes copy_part copy_parts clone_cell clone_at
copies = tt

clone_at-Owns_example :
    (c : ℕ) × ((clone_at (some 2) memory).0 ≡ some c)
    × Owns 3 stored.next stored c
    × (show stored c ≡ show memory 2)
    × (3 ≤ stored.next)
    × Agree 0 3 memory stored
clone_at-Owns_example = Separation.clone_at-Owns 2 memory (omega arith)

hit_unaffected_example :
    (b : ℕ) × ((clone_at (some 5) later).0 ≡ some b)
    × Owns later.next (clone_at (some 5) later).1.next (clone_at (some 5) later).1 b
    × (show (clone_at (some 5) later).1 b ≡ show memory 2)
    × Agree 3 stored.next stored (clone_at (some 5) later).1
unfolding copies
hit_unaffected_example =
    Separation.hit_unaffected 2 5 memory later (omega arith) refl (omega arith)
      (λ x low high. (refl, refl, ground arith))
