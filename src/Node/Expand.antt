-- ===== src/Node/Expand.antt =====
-- node40_expand: room for new items between two old ones, and for new units at the end of an item.
use reiser4progs.Prelude.{
  ℕ, ◌+◌, ◌-◌, ◌*◌, ◌%◌, ◌≤◌, ◌<◌, ◌≡◌, refl, ◌∙◌, ap, true, false, Bool-cases, inl, inr, ltb, ◌==◌,
  u16_mod, u32_mod, update, memmove, update_same, update_other, memcpy_inside, memcpy_before, arith,
  ◌≢◌,
}
use reiser4progs.Node.{ItemHeader, Node, max_uint32, sub16, sub32, add16, ih_size, mkdirty}
use reiser4progs.Node.Space.{expand, inc_offsets}
use reiser4progs.Node.Loops.{inc_offsets_inside, inc_offsets_before}
use reiser4progs.Node.Contents.{
  bound, IsValid, bound_end, bound_item, bound_top, valid_bounds, headers_le, headers_add,
}

-- `node'` has `count` more headers at `p` and `len` more bytes in front of the old item `p`.
pub record Expanded (node node' : Node) (p len count : ℕ) : Type 0 where
  pub grown : node'.num_items ≡ node.num_items + count
  pub start : node'.free_space_start ≡ node.free_space_start + len
  pub left : node'.free_space + len + count * ih_size node.keypol ≡ node.free_space
  pub same_size : node'.block_size ≡ node.block_size
  pub same_pol : node'.keypol ≡ node.keypol
  pub dirtied : node'.dirty ≡ true
  pub before : (j : ℕ) → j < p → node'.ih j ≡ node.ih j
  pub behind :
      (j : ℕ)
      → p ≤ j
      → j < node.num_items
      → node'.ih (j + count) ≡ record (node.ih j) { offset = (node.ih j).offset + len }
  pub low : (a : ℕ) → a < bound node p → node'.bytes a ≡ node.bytes a
  pub high :
      (a : ℕ) → bound node p ≤ a → a < node.free_space_start → node'.bytes (a + len) ≡ node.bytes a

abbrev moved : Node → ℕ → ℕ → ℕ → ℕ → ItemHeader
moved node p len count =
    memmove (inc_offsets node.ih len p (node.num_items - p)) (p + count) p (node.num_items - p)

abbrev header : Node → ℕ → ℕ → ℕ → ItemHeader
header node p len count = record (moved node p len count p) {
  flags = 0;
  offset = (node.ih p).offset % u16_mod;
}

-- Of the new headers the first has its offset and no flags; the others are not written.
abbrev pub Made : Node → Node → ℕ → Type 0
Made node node' p = ((node'.ih p).offset ≡ bound node p) × ((node'.ih p).flags ≡ 0)

-- What the insertion writes, where there are items behind.
inserted : Node → ℕ → ℕ → ℕ → Node
inserted node p len count =
    let o = (node.ih p).offset in
    record node {
      bytes = memmove node.bytes (o + len) o (sub32 node.free_space_start o);
      ih = update (moved node p len count) p (header node p len count);
      free_space_start = add16 node.free_space_start len;
      free_space = sub16 (sub16 node.free_space len) (count * ih_size node.keypol);
      num_items = add16 node.num_items count;
      dirty = true;
    }

appended : Node → ℕ → ℕ → ℕ → Node
appended node p len count = record node {
  ih =
      update node.ih p (record (node.ih p) { flags = 0; offset = node.free_space_start % u16_mod });
  free_space_start = add16 node.free_space_start len;
  free_space = sub16 (sub16 node.free_space len) (count * ih_size node.keypol);
  num_items = add16 node.num_items count;
  dirty = true;
}

expand-inserted :
    (node : Node) (p len count : ℕ)
    → len ≢ 0
    → p < node.num_items
    → p < u32_mod
    → expand node (record { item = p; unit = max_uint32 }) len count ≡ inserted node p len count
unfolding expand mkdirty inserted
expand-inserted node p len count some_len inside small = rw (item, within, nonzero)
  where
    item : (p + 0) % u32_mod ≡ p
    item = omega arith

    within : ltb p node.num_items ≡ true
    within = ground arith

    nonzero : (len == 0) ≡ false
    nonzero = ground arith

expand-appended :
    (node : Node) (p len count : ℕ)
    → len ≢ 0
    → node.num_items ≤ p
    → p < u32_mod
    → expand node (record { item = p; unit = max_uint32 }) len count ≡ appended node p len count
unfolding expand mkdirty appended
expand-appended node p len count some_len outside small = rw (item, within, nonzero)
  where
    item : (p + 0) % u32_mod ≡ p
    item = omega arith

    within : ltb p node.num_items ≡ false
    within = ground arith

    nonzero : (len == 0) ≡ false
    nonzero = ground arith

-- There is room for `len` bytes and `count` headers.
abbrev pub HasRoom : Node → ℕ → ℕ → Type 0
HasRoom node len count = len + count * ih_size node.keypol ≤ node.free_space

-- The headers behind the new ones, and the bodies behind the new room.
inserted_headers :
    (node : Node) (p len count j : ℕ)
    → IsValid node
    → HasRoom node len count
    → 0 < count
    → p ≤ j
    → j < node.num_items
    → (inserted node p len count).ih (j + count)
      ≡ record (node.ih j) { offset = (node.ih j).offset + len }
unfolding inserted
inserted_headers node p len count j v room some from lt =
    update_other (moved node p len count) p (j + count) (header node p len count) (omega arith)
    ∙ memcpy_inside (inc_offsets node.ih len p (node.num_items - p))
        (inc_offsets node.ih len p (node.num_items - p)) (p + count) p (node.num_items - p)
        (j + count) (j - p) (omega arith) (omega arith)
    ∙ ap (inc_offsets node.ih len p (node.num_items - p)) {x = p + (j - p)} {y = j} (omega arith)
    ∙ inc_offsets_inside (node.num_items - p) node.ih len p j from (omega arith)
        (omega (arith, bound_item node j lt, bound_top v j, valid_bounds v, v.fits, v.small))

inserted-Expanded :
    (node : Node) (p len count : ℕ)
    → IsValid node
    → p < node.num_items
    → 0 < count
    → HasRoom node len count
    → Expanded node (inserted node p len count) p len count
unfolding inserted
inserted-Expanded node p len count v inside some room = record {
  grown = omega (arith, valid_bounds v, few);
  start = omega (arith, valid_bounds v, v.fits, v.small);
  left = omega (arith, valid_bounds v);
  same_size = refl;
  same_pol = refl;
  dirtied = refl;
  before = λ j lt.
      update_other (moved node p len count) p j (header node p len count) (omega arith)
      ∙ memcpy_before (inc_offsets node.ih len p (node.num_items - p))
          (inc_offsets node.ih len p (node.num_items - p)) (p + count) p (node.num_items - p) j
          (omega arith)
      ∙ inc_offsets_before (node.num_items - p) node.ih len p j lt;
  behind = λ j from lt. inserted_headers node p len count j v room some from lt;
  low = λ a lt.
      memcpy_before node.bytes node.bytes ((node.ih p).offset + len) (node.ih p).offset _ a
        (omega (arith, at_p));
  high = λ a from lt.
      memcpy_inside node.bytes node.bytes ((node.ih p).offset + len) (node.ih p).offset _ (a + len)
        (a - (node.ih p).offset) (omega (arith, at_p)) (omega (arith, at_p, valid_bounds v))
      ∙ ap node.bytes {y = a} (omega (arith, at_p));
}
  where
    few : node.num_items + count < u16_mod
    few = omega (
      arith,
      v.fits,
      v.small,
      headers_le (node.num_items + count) node.keypol,
      headers_add node.num_items count (ih_size node.keypol),
    )

    at_p :
        (bound node p ≡ (node.ih p).offset)
        × ((node.ih p).offset ≤ node.free_space_start)
        × (node.free_space_start < u16_mod)
    at_p = omega (arith, bound_item node p inside, bound_top v p, valid_bounds v)

inserted-Made :
    (node : Node) (p len count : ℕ)
    → IsValid node
    → p < node.num_items
    → Made node (inserted node p len count) p
unfolding inserted
inserted-Made node p len count v inside = (
  ap (λ h. h.offset) (update_same (moved node p len count) p p (header node p len count) refl)
      ∙ omega (arith, bound_item node p inside, bound_top v p, valid_bounds v),
  ap (λ h. h.flags) (update_same (moved node p len count) p p (header node p len count) refl),
)

appended-Expanded :
    (node : Node) (p len count : ℕ)
    → IsValid node
    → p ≡ node.num_items
    → HasRoom node len count
    → Expanded node (appended node p len count) p len count
      × Made node (appended node p len count) p
unfolding appended
appended-Expanded node p len count v end room = (
  record {
    grown = omega (arith, valid_bounds v, few);
    start = omega (arith, valid_bounds v, v.fits, v.small);
    left = omega (arith, valid_bounds v);
    same_size = refl;
    same_pol = refl;
    dirtied = refl;
    before = λ j lt. update_other node.ih p j last (omega arith);
    behind = λ j from lt. absurd (omega arith);
    low = λ a lt. refl;
    high = λ a from lt. absurd (omega (arith, bound_end node p (omega arith)));
  },
  (
    ap (λ h. h.offset) (update_same node.ih p p last refl)
        ∙ omega (arith, bound_end node p (omega arith), valid_bounds v),
    ap (λ h. h.flags) (update_same node.ih p p last refl),
  ),
)
  where
    last : ItemHeader
    last = record (node.ih p) { flags = 0; offset = node.free_space_start % u16_mod }

    few : node.num_items + count < u16_mod
    few = omega (
      arith,
      v.fits,
      v.small,
      headers_le (node.num_items + count) node.keypol,
      headers_add node.num_items count (ih_size node.keypol),
    )

-- Room for new items in a valid node with enough free space.
pub expand-Expanded :
    (node : Node) (p len count : ℕ)
    → IsValid node
    → p ≤ node.num_items
    → 0 < len
    → 0 < count
    → HasRoom node len count
    → let node' = expand node (record { item = p; unit = max_uint32 }) len count in
      Expanded node node' p len count × Made node node' p
expand-Expanded node p len count v le some_len some room =
    elim (Bool-cases (ltb p node.num_items)) [
      | inl inside ↦
          rw
            (expand-inserted node p len count (omega arith) (ground arith)
              (omega (arith, valid_bounds v)))
            (
              inserted-Expanded node p len count v (ground arith) some room,
              inserted-Made node p len count v (ground arith),
            )
      | inr outside ↦
          rw
            (expand-appended node p len count (omega arith) (ground arith)
              (omega (arith, valid_bounds v)))
            (appended-Expanded node p len count v (ground arith) room)
    ]
