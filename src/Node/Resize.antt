-- ===== src/Node/Resize.antt =====
-- node40_expand and node40_shrink of units: one item grows or shrinks at its end, and the items behind it
-- move.
use reiser4progs.Prelude.{
  ℕ, ◌+◌, ◌-◌, ◌≤◌, ◌<◌, ◌≡◌, ◌≢◌, refl, ◌∙◌, ap, inl, inr, ◌⊎◌, true, false, List, ◌==◌, arith,
  memmove, update_same, update_other, memcpy_inside, memcpy_before,
}
use reiser4progs.Node.{ItemHeader, Node, sub16, add16, max_uint32, mkdirty}
use reiser4progs.Node.Contents.{bound, IsValid, bound_item, bound_mono, bound_top, valid_bounds}
use reiser4progs.Node.Space.{shrink, len_by_ih, tail_size, dec_offsets}
use reiser4progs.Node.Loops.{dec_offsets_inside, dec_offsets_before}
use reiser4progs.Node.Copy.{with_offset}
use reiser4progs.Node.Splice.{span}
use reiser4progs.Node.Splice.{len_by_ih-span}
use reiser4progs.Node.Place.{put_key, put_bytes}

abbrev pub with_key : ItemHeader → List ℕ → ItemHeader
with_key h key = record h { key = key }

-- `node'` is `node`, but for item `p`, which has a body of `cut` bytes less and `grow` bytes more, and
-- this key.
pub record Resized (node node' : Node) (p cut grow : ℕ) (key : List ℕ) : Type 0 where
  pub same_count : node'.num_items ≡ node.num_items
  pub start : node'.free_space_start + cut ≡ node.free_space_start + grow
  pub left : node'.free_space + grow ≡ node.free_space + cut
  pub same_size : node'.block_size ≡ node.block_size
  pub same_pol : node'.keypol ≡ node.keypol
  pub before : (j : ℕ) → j < p → node'.ih j ≡ node.ih j
  pub at : node'.ih p ≡ with_key (node.ih p) key
  pub behind :
      (j : ℕ)
      → p < j
      → j < node.num_items
      → node'.ih j ≡ with_offset (node.ih j) ((node.ih j).offset + grow - cut)
  pub low : (a : ℕ) → a < bound node p → node'.bytes a ≡ node.bytes a
  pub high :
      (a : ℕ)
      → bound node (p + 1) ≤ a
      → a < node.free_space_start
      → node'.bytes (a + grow - cut) ≡ node.bytes a

pub put_key-Resized :
    {node node' : Node} {p cut grow : ℕ} {key : List ℕ} (new : List ℕ)
    → Resized node node' p cut grow key
    → Resized node (put_key node' p new) p cut grow new
put_key-Resized {node} {node'} {p} {cut} {grow} {key} new r = record {
  same_count = r.same_count;
  start = r.start;
  left = r.left;
  same_size = r.same_size;
  same_pol = r.same_pol;
  before = λ j lt.
      update_other node'.ih p j (record (node'.ih p) { key = new }) (omega arith) ∙ r.before j lt;
  at =
      update_same node'.ih p p (record (node'.ih p) { key = new }) refl
      ∙ ap (λ h. with_key h new) r.at;
  behind = λ j from lt.
      update_other node'.ih p j (record (node'.ih p) { key = new }) (omega arith)
      ∙ r.behind j from lt;
  low = r.low;
  high = r.high;
}

-- What shrink writes for units.
shrunk : Node → ℕ → ℕ → ℕ → Node
shrunk node p end len = record node {
  bytes = memmove node.bytes (end - len) end (tail_size node end);
  ih = dec_offsets node.ih len (p + 1) (node.num_items - (p + 1));
  free_space = add16 node.free_space len;
  free_space_start = sub16 node.free_space_start len;
  dirty = true;
}

shrink-shrunk :
    (node : Node) (p u len count : ℕ)
    → IsValid node
    → p < node.num_items
    → u ≢ max_uint32
    → shrink node (record { item = p; unit = u }) len count ≡ shrunk node p (bound node (p + 1)) len
unfolding shrink mkdirty shrunk
shrink-shrunk node p u len count v lt units = rw (whole, end) refl
  where
    whole : (u == max_uint32) ≡ false
    whole = ground arith

    end :
        (node.ih p).offset + len_by_ih node (record { item = p; unit = u }) node.num_items
        ≡ bound node (p + 1)
    end = omega (
      arith,
      len_by_ih-span node p u v lt,
      bound_item node p lt,
      bound_mono v p (p + 1) (omega arith),
    )

shrunk-Resized :
    (node : Node) (p len : ℕ) (bytes : ℕ → ℕ)
    → IsValid node
    → p < node.num_items
    → len ≤ span node p 1
    → ((a : ℕ) → (a < bound node p) ⊎ (bound node (p + 1) ≤ a) → bytes a ≡ node.bytes a)
    → Resized node
        (shrunk (put_bytes node bytes) p (bound node (p + 1)) len)
        p
        len
        0
        (node.ih p).key
unfolding shrunk
shrunk-Resized node p len bytes v lt le outside = record {
  same_count = refl;
  start = omega (arith, valid_bounds v, facts);
  left = omega (arith, valid_bounds v, v.fits, v.small, facts);
  same_size = refl;
  same_pol = refl;
  before =
      λ j below. dec_offsets_before (node.num_items - (p + 1)) node.ih len (p + 1) j (omega arith);
  at = dec_offsets_before (node.num_items - (p + 1)) node.ih len (p + 1) p (omega arith);
  behind = λ j from below.
      dec_offsets_inside (node.num_items - (p + 1)) node.ih len (p + 1) j (omega arith)
        (omega arith) (omega (arith, behind_at j from below))
        (omega (arith, behind_at j from below, bound_top v j, valid_bounds v))
      ∙ ap (with_offset (node.ih j)) (omega arith);
  low = λ a below.
      memcpy_before bytes bytes (bound node (p + 1) - len) (bound node (p + 1))
        (tail_size node (bound node (p + 1))) a (omega (arith, facts))
      ∙ outside a (inl below);
  high = λ a from below.
      memcpy_inside bytes bytes (bound node (p + 1) - len) (bound node (p + 1))
        (tail_size node (bound node (p + 1))) (a + 0 - len) (a - bound node (p + 1))
        (omega (arith, facts)) (omega (arith, facts, v.fits, v.small))
      ∙ ap bytes {y = a} (omega arith)
      ∙ outside a (inr from);
}
  where
    facts : (bound node p + len ≤ bound node (p + 1)) × (bound node (p + 1) ≤ node.free_space_start)
    facts = omega (arith, bound_mono v p (p + 1) (omega arith), bound_top v (p + 1))

    behind_at :
        (j : ℕ)
        → p < j
        → j < node.num_items
        → (bound node j ≡ (node.ih j).offset) × (len ≤ bound node j)
    behind_at j from below =
        omega (arith, bound_item node j below, bound_mono v (p + 1) j (omega arith), facts)

-- A method that writes the body of the item only, before or after it was resized.
pub put_bytes-Resized :
    {node node' : Node} {p cut grow : ℕ} {key : List ℕ} (bytes : ℕ → ℕ)
    → Resized node node' p cut grow key
    → IsValid node
    → cut ≤ span node p 1
    → ((a : ℕ)
        → (a < bound node p) ⊎ (bound node (p + 1) + grow - cut ≤ a)
        → bytes a ≡ node'.bytes a)
    → Resized node (put_bytes node' bytes) p cut grow key
put_bytes-Resized {node} {node'} {p} {cut} {grow} bytes r v le outside = record {
  same_count = r.same_count;
  start = r.start;
  left = r.left;
  same_size = r.same_size;
  same_pol = r.same_pol;
  before = r.before;
  at = r.at;
  behind = r.behind;
  low = λ a below. outside a (inl below) ∙ r.low a below;
  high = λ a from below. outside (a + grow - cut) (inr (omega arith)) ∙ r.high a from below;
}

pub bound-put_bytes :
    (node : Node) (bytes : ℕ → ℕ) (i : ℕ) → bound (put_bytes node bytes) i ≡ bound node i
unfolding bound
bound-put_bytes node bytes i = refl

pub put_bytes-IsValid :
    (node : Node) (bytes : ℕ → ℕ) → IsValid node → IsValid (put_bytes node bytes)
unfolding bound
put_bytes-IsValid node bytes v = record { ordered = v.ordered; fits = v.fits; small = v.small }

pub shrink-Resized :
    (node : Node) (p u len count : ℕ) (bytes : ℕ → ℕ)
    → IsValid node
    → p < node.num_items
    → u ≢ max_uint32
    → len ≤ span node p 1
    → ((a : ℕ) → (a < bound node p) ⊎ (bound node (p + 1) ≤ a) → bytes a ≡ node.bytes a)
    → Resized node
        (shrink (put_bytes node bytes) (record { item = p; unit = u }) len count)
        p
        len
        0
        (node.ih p).key
shrink-Resized node p u len count bytes v lt units le outside =
    rw
      (
        shrink-shrunk (put_bytes node bytes) p u len count (put_bytes-IsValid node bytes v) lt
            units,
        bound-put_bytes node bytes (p + 1),
      )
      (shrunk-Resized node p len bytes v lt le outside)
