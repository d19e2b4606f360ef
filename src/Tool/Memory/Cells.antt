-- ===== src/Tool/Memory/Cells.antt =====
-- The memory that a result owns, and what two memories have in common.
use mcp_multiplexer.Base.{
  ℕ, ◌≤◌, ◌<◌, ◌≡◌, refl, ap, ◌∙◌, Option, none, some, List, [], ◌∷◌, map, All, arith,
}
use mcp_multiplexer.Tool.Memory.{
  PartCell, ResultCell, Memory, elements, show_bytes, show_part, show,
}

-- The two memories hold the same at the addresses from `lo` to below `hi`.
abbrev pub Agree : ℕ → ℕ → Memory → Memory → Type 0
Agree lo hi m m' =
    (x : ℕ)
    → lo ≤ x
    → x < hi
    → (m'.result x ≡ m.result x) × (m'.array x ≡ m.array x) × (m'.buffer x ≡ m.buffer x)

abbrev pub Within : ℕ → ℕ → Option ℕ → Type 0
Within lo hi none = Unit
Within lo hi (some a) = (lo ≤ a) × (a < hi)

abbrev pub PartWithin : ℕ → ℕ → PartCell → Type 0
PartWithin lo hi p = Within lo hi p.bin × Within lo hi p.raw

-- All the memory that can be reached from the result stands from `lo` to below `hi`.
abbrev pub CellWithin : ℕ → ℕ → Memory → ResultCell → Type 0
CellWithin lo hi m r = Within lo hi r.parts × All (PartWithin lo hi) (elements m r.parts)

abbrev pub Owns : ℕ → ℕ → Memory → ℕ → Type 0
Owns lo hi m a = (lo ≤ a) × (a < hi) × CellWithin lo hi m (m.result a)

pub show_bytes-Agree :
    (lo hi : ℕ) (m m' : Memory) (o : Option ℕ)
    → Agree lo hi m m'
    → Within lo hi o
    → show_bytes m' o ≡ show_bytes m o
show_bytes-Agree lo hi m m' none g w = refl
show_bytes-Agree lo hi m m' (some a) g w = ap some (g a w.0 w.1).2

pub show_parts-Agree :
    (lo hi : ℕ) (m m' : Memory) (ps : List PartCell)
    → Agree lo hi m m'
    → All (PartWithin lo hi) ps
    → map (show_part m') ps ≡ map (show_part m) ps
show_parts-Agree lo hi m m' [] g w = refl
show_parts-Agree lo hi m m' (p ∷ ps) g w =
    rw (show_bytes-Agree lo hi m m' p.bin g w.0.0, show_bytes-Agree lo hi m m' p.raw g w.0.1)
      (ap (◌∷◌ (show_part m p)) (show_parts-Agree lo hi m m' ps g w.1))

pub elements-Agree :
    (lo hi : ℕ) (m m' : Memory) (o : Option ℕ)
    → Agree lo hi m m'
    → Within lo hi o
    → elements m' o ≡ elements m o
elements-Agree lo hi m m' none g w = refl
elements-Agree lo hi m m' (some a) g w = (g a w.0 w.1).1

-- What is shown of a result depends on its own memory only.
pub show-Agree :
    (lo hi : ℕ) (m m' : Memory) (a : ℕ) → Owns lo hi m a → Agree lo hi m m' → show m' a ≡ show m a
show-Agree lo hi m m' a (low, high, w) g =
    rw
      (
        (g a low high).0,
        elements-Agree lo hi m m' (m.result a).parts g w.0,
        show_parts-Agree lo hi m m' (elements m (m.result a).parts) g w.1,
      )
      refl

pub Owns-Agree :
    (lo hi : ℕ) (m m' : Memory) (a : ℕ) → Owns lo hi m a → Agree lo hi m m' → Owns lo hi m' a
Owns-Agree lo hi m m' a (low, high, w) g =
    rw ((g a low high).0, elements-Agree lo hi m m' (m.result a).parts g w.0) (low, high, w)

pub Agree-trans :
    (lo hi hi' : ℕ) (m m' m'' : Memory)
    → hi ≤ hi'
    → Agree lo hi m m'
    → Agree lo hi' m' m''
    → Agree lo hi m m''
Agree-trans lo hi hi' m m' m'' le g h x low high =
    let old = g x low high in
    let new = h x low (omega arith) in (new.0 ∙ old.0, new.1 ∙ old.1, new.2 ∙ old.2)

pub Within-widen :
    (lo hi lo' hi' : ℕ) (o : Option ℕ) → lo' ≤ lo → hi ≤ hi' → Within lo hi o → Within lo' hi' o
Within-widen lo hi lo' hi' none l h w = tt
Within-widen lo hi lo' hi' (some a) l h w = omega arith

pub PartsWithin-widen :
    (lo hi lo' hi' : ℕ) (ps : List PartCell)
    → lo' ≤ lo
    → hi ≤ hi'
    → All (PartWithin lo hi) ps
    → All (PartWithin lo' hi') ps
PartsWithin-widen lo hi lo' hi' [] l h w = tt
PartsWithin-widen lo hi lo' hi' (p ∷ ps) l h w = (
  (Within-widen lo hi lo' hi' p.bin l h w.0.0, Within-widen lo hi lo' hi' p.raw l h w.0.1),
  PartsWithin-widen lo hi lo' hi' ps l h w.1,
)

pub Owns-widen :
    (lo hi lo' hi' : ℕ) (m : Memory) (a : ℕ)
    → lo' ≤ lo
    → hi ≤ hi'
    → Owns lo hi m a
    → Owns lo' hi' m a
Owns-widen lo hi lo' hi' m a l h (low, high, w) = (
  omega arith,
  omega arith,
  (
    Within-widen lo hi lo' hi' (m.result a).parts l h w.0,
    PartsWithin-widen lo hi lo' hi' (elements m (m.result a).parts) l h w.1,
  ),
)
