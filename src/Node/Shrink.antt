-- ===== src/Node/Shrink.antt =====
-- node40_shrink of whole items: the headers and the bodies behind them close the gap.
use reiser4progs.Prelude.{
  ℕ, ◌+◌, ◌-◌, ◌*◌, ◌≤◌, ◌<◌, ◌≡◌, refl, ◌∙◌, sym, ap, true, false, Bool-cases, inl, inr, ltb,
  u16_mod, memmove, memcpy_inside, memcpy_before, arith,
}
use reiser4progs.Node.{Node, max_uint32, sub16, add16, ih_size, mkdirty}
use reiser4progs.Node.Space.{shrink, dec_offsets, tail_size}
use reiser4progs.Node.Loops.{dec_offsets_inside, dec_offsets_before}
use reiser4progs.Node.Contents.{
  bound, IsValid, bound_end, bound_item, bound_le, bound_mono, bound_top, valid_bounds, headers_add,
}
use reiser4progs.Node.Copy.{with_offset}
use reiser4progs.Node.Splice.{span}

-- `node'` is `node` without the `count` items from `p` on.
pub record Cut (node node' : Node) (p count : ℕ) : Type 0 where
  pub fewer : node'.num_items + count ≡ node.num_items
  pub start : node'.free_space_start + span node p count ≡ node.free_space_start
  pub left : node'.free_space ≡ node.free_space + span node p count + count * ih_size node.keypol
  pub same_size : node'.block_size ≡ node.block_size
  pub same_pol : node'.keypol ≡ node.keypol
  pub dirtied : node'.dirty ≡ true
  pub before : (j : ℕ) → j < p → node'.ih j ≡ node.ih j
  pub behind :
      (j : ℕ)
      → p ≤ j
      → j < node'.num_items
      → node'.ih j
        ≡ with_offset (node.ih (j + count)) ((node.ih (j + count)).offset - span node p count)
  pub low : (a : ℕ) → a < bound node p → node'.bytes a ≡ node.bytes a
  pub high :
      (a : ℕ)
      → bound node p ≤ a
      → a < node'.free_space_start
      → node'.bytes a ≡ node.bytes (a + span node p count)

-- What shrink writes, with items behind the gap and without.
cut : Node → ℕ → ℕ → ℕ → Node
cut node p len count =
    let o = (node.ih p).offset in
    record node {
      bytes = memmove node.bytes o (o + len) (tail_size node (o + len));
      ih =
          dec_offsets (memmove node.ih p (p + count) (node.num_items - (p + count))) len p
            (node.num_items - count - p);
      num_items = sub16 node.num_items count;
      free_space = add16 node.free_space (len + count * ih_size node.keypol);
      free_space_start = sub16 node.free_space_start len;
      dirty = true;
    }

cut_end : Node → ℕ → ℕ → Node
cut_end node len count = record node {
  num_items = sub16 node.num_items count;
  free_space = add16 node.free_space (len + count * ih_size node.keypol);
  free_space_start = sub16 node.free_space_start len;
  dirty = true;
}

shrink-cut :
    (node : Node) (p len count : ℕ)
    → p + count < node.num_items
    → shrink node (record { item = p; unit = max_uint32 }) len count ≡ cut node p len count
unfolding shrink mkdirty cut
shrink-cut node p len count inside = rw within
  where
    within : ltb (p + count) node.num_items ≡ true
    within = ground arith

shrink-cut_end :
    (node : Node) (p len count : ℕ)
    → node.num_items ≤ p + count
    → shrink node (record { item = p; unit = max_uint32 }) len count ≡ cut_end node len count
unfolding shrink mkdirty cut_end
shrink-cut_end node p len count outside = rw within
  where
    within : ltb (p + count) node.num_items ≡ false
    within = ground arith

-- The numbers of the node header.
module _ (node : Node) (p count : ℕ) (v : IsValid node) (le : p + count ≤ node.num_items) where
  span_le : bound node p + span node p count ≤ node.free_space_start
  span_le = omega (arith, bound_le v count p, bound_top v (p + count))

  header_numbers :
      (sub16 node.num_items count + count ≡ node.num_items)
      × (sub16 node.free_space_start (span node p count) + span node p count
          ≡ node.free_space_start)
      × (add16 node.free_space (span node p count + count * ih_size node.keypol)
          ≡ node.free_space + span node p count + count * ih_size node.keypol)
  header_numbers = omega (
    arith,
    valid_bounds v,
    span_le,
    v.fits,
    v.small,
    headers_add (node.num_items - count) count (ih_size node.keypol),
    ap (λ n. n * ih_size node.keypol) {x = node.num_items - count + count} {y = node.num_items}
        (omega arith),
  )

cut-Cut :
    (node : Node) (p count : ℕ)
    → IsValid node
    → p + count < node.num_items
    → Cut node (cut node p (span node p count) count) p count
unfolding cut
cut-Cut node p count v lt = record {
  fewer = omega (arith, header_numbers node p count v (omega arith));
  start = omega (arith, header_numbers node p count v (omega arith));
  left = omega (arith, header_numbers node p count v (omega arith));
  same_size = refl;
  same_pol = refl;
  dirtied = refl;
  before = λ j below.
      dec_offsets_before (node.num_items - count - p) (memmove node.ih p (p + count) rest)
        (span node p count) p j below
      ∙ memcpy_before node.ih node.ih p (p + count) rest j below;
  behind =
      λ j from below. behind j from (omega (arith, header_numbers node p count v (omega arith)));
  low = λ a below.
      memcpy_before node.bytes node.bytes (node.ih p).offset
        ((node.ih p).offset + span node p count)
        (tail_size node ((node.ih p).offset + span node p count)) a (omega (arith, at_p));
  high = λ a from below.
      memcpy_inside node.bytes node.bytes (node.ih p).offset
        ((node.ih p).offset + span node p count)
        (tail_size node ((node.ih p).offset + span node p count)) a (a - (node.ih p).offset)
        (omega (arith, at_p))
        (omega (
          arith,
          at_p,
          v.fits,
          v.small,
          span_le node p count v (omega arith),
          header_numbers node p count v (omega arith),
        ))
      ∙ ap node.bytes (omega (arith, at_p));
}
  where
    rest : ℕ
    rest = node.num_items - (p + count)

    at_p : bound node p ≡ (node.ih p).offset
    at_p = bound_item node p (omega arith)

    moved :
        (j : ℕ)
        → p ≤ j
        → j < node.num_items - count
        → memmove node.ih p (p + count) rest j ≡ node.ih (j + count)
    moved j from below =
        memcpy_inside node.ih node.ih p (p + count) rest j (j - p) (omega arith) (omega arith)
        ∙ ap node.ih (omega arith)

    offset_moved :
        (j : ℕ)
        → p ≤ j
        → j < node.num_items - count
        → (memmove node.ih p (p + count) rest j).offset ≡ bound node (j + count)
    offset_moved j from below =
        ap (λ h. h.offset) (moved j from below) ∙ sym (bound_item node (j + count) (omega arith))

    facts :
        (j : ℕ)
        → p ≤ j
        → j < node.num_items - count
        → (bound node (p + count) ≤ bound node (j + count))
          × (bound node (j + count) ≤ node.free_space_start)
          × (node.free_space_start < u16_mod)
    facts j from below = omega (
      arith,
      bound_mono v (p + count) (j + count) (omega arith),
      bound_top v (j + count),
      valid_bounds v,
    )

    behind :
        (j : ℕ)
        → p ≤ j
        → j < node.num_items - count
        → dec_offsets
            (memmove node.ih p (p + count) rest)
            (span node p count)
            p
            (node.num_items - count - p)
            j
          ≡ with_offset (node.ih (j + count)) ((node.ih (j + count)).offset - span node p count)
    behind j from below =
        dec_offsets_inside (node.num_items - count - p) (memmove node.ih p (p + count) rest)
          (span node p count) p j from (omega arith)
          (omega (arith, offset_moved j from below, facts j from below))
          (omega (arith, offset_moved j from below, facts j from below))
        ∙ ap (λ h. with_offset h (h.offset - span node p count)) (moved j from below)

cut_end-Cut :
    (node : Node) (p count : ℕ)
    → IsValid node
    → p + count ≡ node.num_items
    → Cut node (cut_end node (span node p count) count) p count
unfolding cut_end
cut_end-Cut node p count v e = record {
  fewer = omega (arith, header_numbers node p count v (omega arith));
  start = omega (arith, header_numbers node p count v (omega arith));
  left = omega (arith, header_numbers node p count v (omega arith));
  same_size = refl;
  same_pol = refl;
  dirtied = refl;
  before = λ j below. refl;
  behind = λ j from below. absurd (omega (arith, header_numbers node p count v (omega arith)));
  low = λ a below. refl;
  high = λ a from below. absurd (
      omega (
        arith,
        header_numbers node p count v (omega arith),
        bound_end node (p + count) (omega arith),
        bound_le v count p,
      ));
}

-- What shrink makes of a valid node that has the items to cut.
pub shrink-Cut :
    (node : Node) (p count : ℕ)
    → IsValid node
    → p + count ≤ node.num_items
    → Cut node
        (shrink node (record { item = p; unit = max_uint32 }) (span node p count) count)
        p
        count
shrink-Cut node p count v le = elim (Bool-cases (ltb (p + count) node.num_items)) [
  | inl inside ↦
      rw (shrink-cut node p (span node p count) count (ground arith))
        (cut-Cut node p count v (ground arith))
  | inr outside ↦
      rw (shrink-cut_end node p (span node p count) count (ground arith))
        (cut_end-Cut node p count v (ground arith))
]
