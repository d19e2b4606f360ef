-- ===== src/Transform/Names.antt =====
-- snakeToCamel on one key: a one-pass description, no underscore is left, and a second pass
-- changes nothing.
use mathlib.Core.List.{append_assoc, append-nil}
use mcp_multiplexer.Base.{
  ℕ, Text, if◌then◌else◌, Bool, true, false, ◌≡◌, refl, sym, ◌∙◌, List, [], ◌∷◌, ◌++◌, nat_beq,
  nat_beq_iff, nat_eq, contains, All, upper_byte, arith, Bool-cases, inl, inr,
}
use mcp_multiplexer.Transform.{
  split, upper_first, camel_part, camel_parts, snake_to_camel, push, join_parts,
}

-- In one pass: an underscore is dropped, and marks the next byte (`up`) to be written in upper case.
unfoldable pub camel_scan : Bool → Text → Text
camel_scan up [] = []
camel_scan up (c ∷ s) =
    let after = camel_scan true s in
    let plain = camel_scan false s in
    if nat_beq c b'_' then after else if up then upper_first c ++ plain else c ∷ plain

-- What the loop over the parts writes, in the two states of the scan.
written : Bool → List Text → Text
written true ps = camel_parts ps
written false [] = []
written false (p ∷ ps) = p ++ camel_parts ps

written-push :
    (up : Bool) (c : ℕ) (ps : List Text)
    → written up (push c ps)
      ≡ (if up then upper_first c ++ written false ps else c ∷ written false ps)
unfolding written push camel_parts
written-push true c [] = append-nil (upper_first c ++ [])
written-push false c [] = refl
written-push true c (p ∷ ps) = append_assoc (upper_first c) p (camel_parts ps)
written-push false c (p ∷ ps) = refl

written-skip : (up : Bool) (ps : List Text) → written up ([] ∷ ps) ≡ camel_parts ps
unfolding written camel_parts
written-skip true ps = refl
written-skip false ps = refl

camel_scan-eq-written : (up : Bool) (s : Text) → camel_scan up s ≡ written up (split b'_' s)
unfolding camel_scan split written camel_parts
camel_scan-eq-written true [] = refl
camel_scan-eq-written false [] = refl
camel_scan-eq-written up (c ∷ s) = elim (Bool-cases (nat_beq c b'_')) [
  | inl h ↦ rw h (camel_scan-eq-written true s ∙ sym (written-skip up (split b'_' s)))
  | inr h ↦ rw (h, written-push, camel_scan-eq-written false s)
]

-- Without the byte there is one part, the text itself.
split_absent : (c : ℕ) (s : Text) → contains c s ≡ false → split c s ≡ s ∷ []
unfolding split push
split_absent c [] h = refl
split_absent c (x ∷ s) h = ground (arith, split_absent c s)

abbrev Lacks : ℕ → Text → Type 0
Lacks c s = contains c s ≡ false

push-Lacks :
    (c x : ℕ) (ps : List Text) → nat_beq x c ≡ false → All (Lacks c) ps → All (Lacks c) (push x ps)
unfolding push
push-Lacks c x [] h k = rw h (refl, tt)
push-Lacks c x (p ∷ ps) h k = rw h k

-- No part holds the byte that the text is split at.
split-Lacks : (c : ℕ) (s : Text) → All (Lacks c) (split c s)
unfolding split
split-Lacks c [] = (refl, tt)
split-Lacks c (x ∷ s) = elim (Bool-cases (nat_beq x c)) [
  | inl h ↦ rw h (refl, split-Lacks c s)
  | inr h ↦ rw h (push-Lacks c x (split c s) h (split-Lacks c s))
]

append-Lacks : (c : ℕ) (s t : Text) → Lacks c s → Lacks c t → Lacks c (s ++ t)
append-Lacks c [] t hs ht = ht
append-Lacks c (x ∷ s) t hs ht = ground (arith, append-Lacks c s t)

camel_part-Lacks : (p : Text) → Lacks b'_' p → Lacks b'_' (camel_part p)
unfolding camel_part upper_byte
camel_part-Lacks [] h = refl
camel_part-Lacks (c ∷ p) h = ground arith

camel_parts-Lacks : (ps : List Text) → All (Lacks b'_') ps → Lacks b'_' (camel_parts ps)
unfolding camel_parts
camel_parts-Lacks [] h = refl
camel_parts-Lacks (p ∷ ps) h =
    append-Lacks b'_' (camel_part p) (camel_parts ps) (camel_part-Lacks p h.0)
      (camel_parts-Lacks ps h.1)

written-Lacks : (ps : List Text) → All (Lacks b'_') ps → Lacks b'_' (written false ps)
unfolding written
written-Lacks [] h = refl
written-Lacks (p ∷ ps) h = append-Lacks b'_' p (camel_parts ps) h.0 (camel_parts-Lacks ps h.1)

split_nonempty : (c : ℕ) (s : Text) → (p : Text) × (ps : List Text) × (split c s ≡ p ∷ ps)
unfolding split push
split_nonempty c [] = ([], [], refl)
split_nonempty c (x ∷ s) =
    let (p, ps, e) = split_nonempty c s in
    elim (Bool-cases (nat_beq x c)) [
      | inl h ↦ ([], split c s, rw h)
      | inr h ↦ (x ∷ p, ps, rw (h, e))
    ]

single_part : (s p : Text) → split b'_' s ≡ p ∷ [] → p ≡ s
unfolding split push
single_part [] p h = ground arith
single_part (c ∷ s) p h =
    let (q, qs, e) = split_nonempty b'_' s in ground (arith, e, single_part s q, nat_beq_iff c b'_')

join_parts-eq-written : (s : Text) → snake_to_camel s ≡ written false (split b'_' s)
unfolding snake_to_camel written camel_parts
join_parts-eq-written s = let (p, ps, e) = split_nonempty b'_' s in go p ps e
  where
    go :
        (p : Text) (ps : List Text)
        → split b'_' s ≡ p ∷ ps
        → join_parts s (split b'_' s) ≡ written false (split b'_' s)
    go p [] e = rw e (sym (single_part s p e) ∙ sym (append-nil p))
    go p (q ∷ qs) e = rw e

-- The function that splits, upper-cases and joins is the scan: it drops each underscore and writes
-- the byte after it in upper case.
pub snake_to_camel-eq-scan : (s : Text) → snake_to_camel s ≡ camel_scan false s
snake_to_camel-eq-scan s = join_parts-eq-written s ∙ sym (camel_scan-eq-written false s)

-- No underscore is left in a converted key.
pub snake_to_camel-lacks_underscore : (s : Text) → contains b'_' (snake_to_camel s) ≡ false
snake_to_camel-lacks_underscore s =
    rw join_parts-eq-written (written-Lacks (split b'_' s) (split-Lacks b'_' s))

pub snake_to_camel_absent : (s : Text) → contains b'_' s ≡ false → snake_to_camel s ≡ s
unfolding snake_to_camel
snake_to_camel_absent s h = rw (split_absent b'_' s h, join_parts)

pub snake_to_camel_idem : (s : Text) → snake_to_camel (snake_to_camel s) ≡ snake_to_camel s
snake_to_camel_idem s = snake_to_camel_absent (snake_to_camel s) (snake_to_camel-lacks_underscore s)
