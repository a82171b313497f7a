-- ===== src/Node/Grow.antt =====
-- node40_expand of units: room at the end of an item.
use reiser4progs.Prelude.{
  ℕ, ◌+◌, ◌-◌, ◌%◌, ◌≤◌, ◌<◌, ◌≡◌, ◌≢◌, refl, ◌∙◌, ap, inl, inr, true, false, Bool-cases, ◌==◌, ltb,
  arith, u32_mod, memmove, memcpy_inside, memcpy_before,
}
use reiser4progs.Node.{Node, sub16, sub32, add16, max_uint32, mkdirty}
use reiser4progs.Node.Contents.{
  bound, IsValid, bound_item, bound_end, bound_mono, bound_top, valid_bounds,
}
use reiser4progs.Node.Space.{expand, inc_offsets}
use reiser4progs.Node.Loops.{inc_offsets_inside, inc_offsets_before}
use reiser4progs.Node.Copy.{with_offset}
use reiser4progs.Node.Resize.{Resized}

-- What expand writes for units, with items behind and without.
grown : Node → ℕ → ℕ → ℕ → Node
grown node p end len = record node {
  bytes = memmove node.bytes (end + len) end (sub32 node.free_space_start end);
  ih = inc_offsets node.ih len (p + 1) (node.num_items - (p + 1));
  free_space_start = add16 node.free_space_start len;
  free_space = sub16 node.free_space len;
  dirty = true;
}

grown_last : Node → ℕ → Node
grown_last node len = record node {
  free_space_start = add16 node.free_space_start len;
  free_space = sub16 node.free_space len;
  dirty = true;
}

expand-grown :
    (node : Node) (p u len count : ℕ)
    → IsValid node
    → p + 1 < node.num_items
    → u ≢ max_uint32
    → 0 < len
    → expand node (record { item = p; unit = u }) len count
      ≡ grown node p (node.ih (p + 1)).offset len
unfolding expand mkdirty grown
expand-grown node p u len count v lt units pos_len = rw (some_len, whole, next, inside)
  where
    some_len : (len == 0) ≡ false
    some_len = ground arith

    whole : (u == max_uint32) ≡ false
    whole = ground arith

    next : (p + 1) % u32_mod ≡ p + 1
    next = omega (arith, valid_bounds v)

    inside : ltb (p + 1) node.num_items ≡ true
    inside = ground arith

expand-grown_last :
    (node : Node) (p u len count : ℕ)
    → IsValid node
    → p + 1 ≡ node.num_items
    → u ≢ max_uint32
    → 0 < len
    → expand node (record { item = p; unit = u }) len count ≡ grown_last node len
unfolding expand mkdirty grown_last
expand-grown_last node p u len count v last units pos_len = rw (some_len, whole, next, outside)
  where
    some_len : (len == 0) ≡ false
    some_len = ground arith

    whole : (u == max_uint32) ≡ false
    whole = ground arith

    next : (p + 1) % u32_mod ≡ p + 1
    next = omega (arith, valid_bounds v)

    outside : ltb (p + 1) node.num_items ≡ false
    outside = ground arith

grown-Resized :
    (node : Node) (p len : ℕ)
    → IsValid node
    → p + 1 < node.num_items
    → len ≤ node.free_space
    → Resized node (grown node p (node.ih (p + 1)).offset len) p 0 len (node.ih p).key
unfolding grown
grown-Resized node p len v lt room = record {
  same_count = refl;
  start = omega (arith, valid_bounds v, v.fits, v.small);
  left = omega (arith, valid_bounds v);
  same_size = refl;
  same_pol = refl;
  before =
      λ j below. inc_offsets_before (node.num_items - (p + 1)) node.ih len (p + 1) j (omega arith);
  at = inc_offsets_before (node.num_items - (p + 1)) node.ih len (p + 1) p (omega arith);
  behind = λ j from below.
      inc_offsets_inside (node.num_items - (p + 1)) node.ih len (p + 1) j (omega arith)
        (omega arith) (omega (arith, bound_item node j below, bound_top v j, v.fits, v.small))
      ∙ ap (with_offset (node.ih j)) (omega arith);
  low = λ a below.
      memcpy_before node.bytes node.bytes ((node.ih (p + 1)).offset + len) (node.ih (p + 1)).offset
        (sub32 node.free_space_start (node.ih (p + 1)).offset) a (omega (arith, facts));
  high = λ a from below.
      memcpy_inside node.bytes node.bytes ((node.ih (p + 1)).offset + len) (node.ih (p + 1)).offset
        (sub32 node.free_space_start (node.ih (p + 1)).offset) (a + len - 0)
        (a - (node.ih (p + 1)).offset) (omega (arith, facts)) (omega (arith, facts, valid_bounds v))
      ∙ ap node.bytes {y = a} (omega (arith, facts));
}
  where
    facts :
        (bound node p ≤ bound node (p + 1))
        × (bound node (p + 1) ≤ node.free_space_start)
        × (bound node (p + 1) ≡ (node.ih (p + 1)).offset)
    facts = (bound_mono v p (p + 1) (omega arith), bound_top v (p + 1), bound_item node (p + 1) lt)

grown_last-Resized :
    (node : Node) (p len : ℕ)
    → IsValid node
    → p + 1 ≡ node.num_items
    → len ≤ node.free_space
    → Resized node (grown_last node len) p 0 len (node.ih p).key
unfolding grown_last
grown_last-Resized node p len v last room = record {
  same_count = refl;
  start = omega (arith, valid_bounds v, v.fits, v.small);
  left = omega (arith, valid_bounds v);
  same_size = refl;
  same_pol = refl;
  before = λ j below. refl;
  at = refl;
  behind = λ j from below. absurd (omega arith);
  low = λ a below. refl;
  high = λ a from below. absurd (omega (arith, bound_end node (p + 1) (omega arith)));
}

-- Room for units at the end of an item of a valid node with enough free space.
pub expand-Resized :
    (node : Node) (p u len count : ℕ)
    → IsValid node
    → p < node.num_items
    → u ≢ max_uint32
    → 0 < len
    → len ≤ node.free_space
    → Resized node (expand node (record { item = p; unit = u }) len count) p 0 len (node.ih p).key
expand-Resized node p u len count v lt units pos_len room =
    elim (Bool-cases (ltb (p + 1) node.num_items)) [
      | inl inside ↦
          rw (expand-grown node p u len count v (ground arith) units pos_len)
            (grown-Resized node p len v (ground arith) room)
      | inr last ↦
          rw (expand-grown_last node p u len count v (ground arith) units pos_len)
            (grown_last-Resized node p len v (ground arith) room)
    ]
