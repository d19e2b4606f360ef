-- ===== src/Tool/Memory/Copied.antt =====
-- What the copy of a result, of its parts and of their bytes leaves in memory.
use mcp_multiplexer.Base.{
  ℕ, suc, ◌≤◌, ◌≡◌, ◌≢◌, refl, ap, ◌∙◌, Option, none, some, List, [], ◌∷◌, map, All, update, arith,
}
use mcp_multiplexer.Tool.{CallResult}
use mcp_multiplexer.Tool.Memory.{
  PartCell, ResultCell, Memory, copy_bytes, copy_part, copy_parts, elements, clone_cell, show_bytes,
  show_part, show,
}
use mcp_multiplexer.Tool.Memory.Cells.{
  Agree, Within, PartWithin, CellWithin, Owns, show_bytes-Agree, show_parts-Agree, Agree-trans,
  Within-widen, PartsWithin-widen,
}

-- What the copy of some parts leaves: the old memory as it was, and the copies in new memory, with
-- what the parts showed.
record IsCopied (ps qs : List PartCell) (m m' : Memory) : Type 0 where
  grown : m.next ≤ m'.next
  kept : Agree 0 m.next m m'
  fresh : All (PartWithin m.next m'.next) qs
  same : map (show_part m') qs ≡ map (show_part m) ps

copy_bytes_facts :
    (o : Option ℕ) (m : Memory)
    → (m.next ≤ (copy_bytes o m).1.next)
      × Agree 0 m.next m (copy_bytes o m).1
      × Within m.next (copy_bytes o m).1.next (copy_bytes o m).0
      × (show_bytes (copy_bytes o m).1 (copy_bytes o m).0 ≡ show_bytes m o)
unfolding copy_bytes
copy_bytes_facts none m = (omega arith, λ x low high. (refl, refl, refl), tt, refl)
copy_bytes_facts (some a) m = (
  omega arith,
  λ x low high. (refl, refl, ground arith),
  (omega arith, omega arith),
  ground arith,
)

copy_part_facts :
    (p : PartCell) (m : Memory)
    → PartWithin 0 m.next p
    → (m.next ≤ (copy_part p m).1.next)
      × Agree 0 m.next m (copy_part p m).1
      × PartWithin m.next (copy_part p m).1.next (copy_part p m).0
      × (show_part (copy_part p m).1 (copy_part p m).0 ≡ show_part m p)
unfolding copy_part
copy_part_facts p m (w, w') =
    let m' = (copy_bytes p.bin m).1 in
    let m'' = (copy_bytes p.raw m').1 in
    let bin = (copy_bytes p.bin m).0 in
    let (grown, kept, fresh, same) = copy_bytes_facts p.bin m in
    let (grown', kept', fresh', same') = copy_bytes_facts p.raw m' in
    let bin_same : show_bytes m'' bin ≡ show_bytes m p.bin =
      show_bytes-Agree 0 m'.next m' m'' bin kept'
        (Within-widen m.next m'.next 0 m'.next bin (omega arith) (omega arith) fresh)
      ∙ same in
    let raw_same : show_bytes m'' (copy_bytes p.raw m').0 ≡ show_bytes m p.raw =
      same' ∙ show_bytes-Agree 0 m.next m m' p.raw kept w' in
    (
      omega arith,
      Agree-trans 0 m.next m'.next m m' m'' grown kept kept',
      (
        Within-widen m.next m'.next m.next m''.next bin (omega arith) grown' fresh,
        Within-widen m'.next m''.next m.next m''.next (copy_bytes p.raw m').0 grown (omega arith)
            fresh',
      ),
      rw (bin_same, raw_same) refl,
    )

copy_parts-IsCopied :
    (ps : List PartCell) (m : Memory)
    → All (PartWithin 0 m.next) ps
    → IsCopied ps (copy_parts ps m).0 m (copy_parts ps m).1
unfolding copy_parts
copy_parts-IsCopied [] m w = record {
  grown = omega arith;
  kept = λ x low high. (refl, refl, refl);
  fresh = tt;
  same = refl;
}
copy_parts-IsCopied (p ∷ ps) m (here, w) =
    let m' = (copy_part p m).1 in
    let m'' = (copy_parts ps m').1 in
    let q = (copy_part p m).0 in
    let (grown, kept, fresh, same) = copy_part_facts p m here in
    let rest =
      copy_parts-IsCopied ps m' (PartsWithin-widen 0 m.next 0 m'.next ps (omega arith) grown w) in
    let head_same : map (show_part m'') (q ∷ []) ≡ map (show_part m) (p ∷ []) =
      show_parts-Agree 0 m'.next m' m'' (q ∷ []) rest.kept (
        PartsWithin-widen m.next m'.next 0 m'.next (q ∷ []) (omega arith) (omega arith) (fresh, tt))
      ∙ ap (λ x. x ∷ []) same in
    record {
      grown = omega (arith, rest.grown);
      kept = Agree-trans 0 m.next m'.next m m' m'' grown kept rest.kept;
      fresh = (
        (PartsWithin-widen m.next m'.next m.next m''.next (q ∷ []) (omega arith) rest.grown
            (fresh, tt)).0,
        PartsWithin-widen m'.next m''.next m.next m''.next _ grown (omega arith) rest.fresh,
      );
      same = ground (arith, head_same, rest.same, show_parts-Agree 0 m.next m m' ps kept w);
    }

update_self {ℓ} : {A : Type ℓ} (f : ℕ → A) (i : ℕ) (x : A) → update f i x i ≡ x
update_self f i x = ground arith

update_other {ℓ} : {A : Type ℓ} (f : ℕ → A) (i j : ℕ) (x : A) → i ≢ j → update f i x j ≡ f j
update_other f i j x ne = ground arith

-- The value that a cell shows.
abbrev pub value : Memory → ResultCell → CallResult
value m r = record {
  text = r.text;
  parts = map (show_part m) (elements m r.parts);
  is_error = r.is_error;
}

abbrev pub copy_of : ResultCell → ℕ → ResultCell
copy_of r array = record { text = r.text; parts = some array; is_error = r.is_error }

pub clone_cell_facts :
    (r : ResultCell) (m : Memory)
    → CellWithin 0 m.next m r
    → (m.next ≤ (clone_cell r m).1.next)
      × Agree 0 m.next m (clone_cell r m).1
      × Owns m.next (clone_cell r m).1.next (clone_cell r m).1 (clone_cell r m).0
      × (show (clone_cell r m).1 (clone_cell r m).0 ≡ value m r)
unfolding clone_cell
clone_cell_facts r m (w, ws) =
    let m0 : Memory = record m { next = suc m.next } in
    let ps = elements m r.parts in
    let qs = (copy_parts ps m0).0 in
    let m1 = (copy_parts ps m0).1 in
    let m' = (clone_cell r m).1 in
    let copied =
      copy_parts-IsCopied ps m0
        (PartsWithin-widen 0 m.next 0 m0.next ps (omega arith) (omega arith) ws) in
    let grown : suc m.next ≤ m1.next = copied.grown in
    let cell : m'.result m1.next ≡ copy_of r m.next = update_self m1.result m1.next _ in
    let array : m'.array m.next ≡ qs = update_self m1.array m.next qs in
    let kept : Agree 0 m.next m m' = λ x low high.
      let old = copied.kept x low (omega arith) in
      (
        update_other m1.result m1.next x _ (omega arith) ∙ old.0,
        update_other m1.array m.next x qs (omega arith) ∙ old.1,
        old.2,
      ) in
    let later : Agree (suc m.next) m1.next m1 m' = λ x low high. (
      update_other m1.result m1.next x _ (omega arith),
      update_other m1.array m.next x qs (omega arith),
      refl,
    ) in
    let shown : map (show_part m') qs ≡ map (show_part m) ps =
      show_parts-Agree (suc m.next) m1.next m1 m' qs later copied.fresh
      ∙ copied.same
      ∙ show_parts-Agree 0 m.next m m0 ps (λ x low high. (refl, refl, refl)) ws in
    (
      omega arith,
      kept,
      (
        omega arith,
        omega arith,
        rw (cell, array)
            (
              (omega arith, omega arith),
              PartsWithin-widen (suc m.next) m1.next m.next m'.next qs (omega arith) (omega arith)
                  copied.fresh,
            ),
      ),
      rw (cell, array, shown) refl,
    )
