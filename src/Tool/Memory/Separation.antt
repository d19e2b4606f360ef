-- ===== src/Tool/Memory/Separation.antt =====
-- A copy shares no memory with its original: writes to the one are not seen through the other.
use mcp_multiplexer.Base.{ℕ, ◌≤◌, ◌≡◌, refl, sym, subst, ap, ◌∙◌, none, some, arith}
use mcp_multiplexer.Tool.Memory.{Memory, clone_cell, clone_at, show}
use mcp_multiplexer.Tool.Memory.Cells.{Agree, Owns, show-Agree, Owns-Agree, Owns-widen}
use mcp_multiplexer.Tool.Memory.Copied.{clone_cell_facts}

-- The copy of a result is a new result: it shows what the original shows, all its memory is new, and
-- the memory that there was is as it was.
pub clone_at-Owns :
    (a : ℕ) (m : Memory)
    → Owns 0 m.next m a
    → (c : ℕ) × ((clone_at (some a) m).0 ≡ some c)
      × Owns m.next (clone_at (some a) m).1.next (clone_at (some a) m).1 c
      × (show (clone_at (some a) m).1 c ≡ show m a)
      × (m.next ≤ (clone_at (some a) m).1.next)
      × Agree 0 m.next m (clone_at (some a) m).1
unfolding clone_at
clone_at-Owns a m (low, high, w) =
    let (grown, kept, owns, same) = clone_cell_facts (m.result a) m w in
    ((clone_cell (m.result a) m).0, refl, owns, same, grown, kept)

-- A cache that copies a result when it is stored, and again at each hit, as lruCache does. Whatever
-- is written since then to memory other than that of the stored copy, by those who hold the original
-- or the result of an earlier hit, a hit returns a new result that shows what the original showed
-- when it was stored, and leaves the stored copy as it was.
pub hit_unaffected :
    (a c : ℕ) (m later : Memory)
    → Owns 0 m.next m a
    → (clone_at (some a) m).0 ≡ some c
    → (clone_at (some a) m).1.next ≤ later.next
    → Agree m.next (clone_at (some a) m).1.next (clone_at (some a) m).1 later
    → (b : ℕ) × ((clone_at (some c) later).0 ≡ some b)
      × Owns later.next (clone_at (some c) later).1.next (clone_at (some c) later).1 b
      × (show (clone_at (some c) later).1 b ≡ show m a)
      × Agree m.next
          (clone_at (some a) m).1.next
          (clone_at (some a) m).1
          (clone_at (some c) later).1
hit_unaffected a c m later own at grown agree =
    let stored = (clone_at (some a) m).1 in
    let (c', at', owns, same, more, kept) = clone_at-Owns a m own in
    let which : c' ≡ c = ground (arith, at, at') in
    let held : Owns m.next stored.next stored c =
      subst (Owns m.next stored.next stored) which owns in
    let there = Owns-Agree m.next stored.next stored later c held agree in
    let (b, hit, new, shown, grew, left) =
      clone_at-Owns c later
        (Owns-widen m.next stored.next 0 later.next later c (omega arith) grown there) in
    (
      b,
      hit,
      new,
      shown
          ∙ show-Agree m.next stored.next stored later c held agree
          ∙ ap (show stored) (sym which)
          ∙ same,
      λ x low high.
          let first = agree x low high in
          let new' = left x (omega arith) (omega arith) in
          (new'.0 ∙ first.0, new'.1 ∙ first.1, new'.2 ∙ first.2),
    )

-- The nil pointer is copied to the nil pointer.
clone_at-none : (m : Memory) → clone_at none m ≡ (none, m)
unfolding clone_at
clone_at-none m = refl
