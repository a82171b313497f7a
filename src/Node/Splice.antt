-- ===== src/Node/Splice.antt =====
-- node40_expand and node40_copy together: items of one node, spliced into another.
use reiser4progs.Prelude.{
  ℕ, ◌+◌, ◌-◌, ◌*◌, ◌≤◌, ◌<◌, ◌≡◌, refl, ◌∙◌, ap, true, ltb, if◌then◌else◌, u16_mod, memcpy,
  memcpy_inside, memcpy_before, memcpy_behind, arith,
}
use reiser4progs.Node.{Node, max_uint32, sub32, ih_size, mkdirty}
use reiser4progs.Node.Space.{len_by_ih, copy, copy_offsets, size}
use reiser4progs.Node.Contents.{
  bound, IsValid, bound_end, bound_item, bound_le, bound_mono, bound_top, valid_bounds, headers_le,
  headers_add,
}
use reiser4progs.Node.Expand.{Expanded, Made}
use reiser4progs.Node.Copy.{
  with_offset, copy_offsets_before, copy_offsets_behind, copy_offsets_inside,
}

-- The bytes of the items from `s` to `s + count`.
abbrev pub span : Node → ℕ → ℕ → ℕ
span node s count = bound node (s + count) - bound node s

pub size-span :
    (node : Node) (s count u : ℕ)
    → IsValid node
    → s < node.num_items
    → s + count ≤ node.num_items
    → size node (record { item = s; unit = u }) count ≡ span node s count
unfolding size bound
size-span node s count u v inside le =
    ground
      (arith, bound_le v count s, bound_top v (s + count), valid_bounds v, bound_item node s inside)

pub len_by_ih-span :
    (node : Node) (p u : ℕ)
    → IsValid node
    → p < node.num_items
    → len_by_ih node (record { item = p; unit = u }) node.num_items ≡ span node p 1
unfolding len_by_ih
len_by_ih-span node p u v lt = ground (
  arith,
  bound_item node p lt,
  bound_mono v p (p + 1) (omega arith),
  bound_top v (p + 1),
  valid_bounds v,
  bound_end node (p + 1),
  bound_item node (p + 1),
)

copied : Node → Node → ℕ → Node → ℕ → ℕ → Node
copied dst grown p src s count = record grown {
  bytes = memcpy grown.bytes (bound dst p) src.bytes (src.ih s).offset (span src s count);
  ih =
      copy_offsets (memcpy grown.ih p src.ih s count) grown.free_space_start
        (sub32 grown.num_items 1) (bound dst p) p count;
  dirty = true;
}

copy-copied :
    (dst grown : Node) (p : ℕ) (src : Node) (s count : ℕ)
    → IsValid dst
    → IsValid src
    → p ≤ dst.num_items
    → s < src.num_items
    → s + count ≤ src.num_items
    → Expanded dst grown p (span src s count) count
    → Made dst grown p
    → copy grown
        (record { item = p; unit = max_uint32 })
        src
        (record { item = s; unit = max_uint32 })
        count
      ≡ copied dst grown p src s count
unfolding copy mkdirty copied
copy-copied dst grown p src s count vd vs le inside top e made =
    rw (size-span src s count max_uint32 vs inside top, body)
  where
    body :
        (if ltb p (sub32 grown.num_items count)
          then (grown.ih p).offset
          else sub32 grown.free_space_start (span src s count))
        ≡ bound dst p
    body = ground (
      arith,
      e.grown,
      e.start,
      made.0,
      valid_bounds vd,
      valid_bounds vs,
      bound_end dst p,
      bound_top vs (s + count),
    )

-- `node'` has the items of `dst` below `p`, the `count` items of `src` from `s` on, and the others.
pub record Spliced (dst node' : Node) (p : ℕ) (src : Node) (s count : ℕ) : Type 0 where
  pub grown : node'.num_items ≡ dst.num_items + count
  pub start : node'.free_space_start ≡ dst.free_space_start + span src s count
  pub left : node'.free_space + span src s count + count * ih_size dst.keypol ≡ dst.free_space
  pub same_size : node'.block_size ≡ dst.block_size
  pub same_pol : node'.keypol ≡ dst.keypol
  pub dirtied : node'.dirty ≡ true
  pub before : (j : ℕ) → j < p → node'.ih j ≡ dst.ih j
  pub inside :
      (k : ℕ)
      → k < count
      → node'.ih (p + k)
        ≡ with_offset (src.ih (s + k)) (bound dst p + (bound src (s + k) - bound src s))
  pub behind :
      (j : ℕ)
      → p ≤ j
      → j < dst.num_items
      → node'.ih (j + count) ≡ with_offset (dst.ih j) ((dst.ih j).offset + span src s count)
  pub low : (a : ℕ) → a < bound dst p → node'.bytes a ≡ dst.bytes a
  pub middle :
      (k : ℕ) → k < span src s count → node'.bytes (bound dst p + k) ≡ src.bytes (bound src s + k)
  pub high :
      (a : ℕ)
      → bound dst p ≤ a
      → a < dst.free_space_start
      → node'.bytes (a + span src s count) ≡ dst.bytes a

copied_inside :
    (dst grown : Node) (p : ℕ) (src : Node) (s count k : ℕ)
    → IsValid dst
    → IsValid src
    → p ≤ dst.num_items
    → s + count ≤ src.num_items
    → Expanded dst grown p (span src s count) count
    → span src s count + count * ih_size dst.keypol ≤ dst.free_space
    → k < count
    → (copied dst grown p src s count).ih (p + k)
      ≡ with_offset (src.ih (s + k)) (bound dst p + (bound src (s + k) - bound src s))
unfolding copied
copied_inside dst grown p src s count k vd vs le top e room lt =
    copy_offsets_inside count (memcpy grown.ih p src.ih s count) (λ l. src.ih (s + l))
      grown.free_space_start (sub32 grown.num_items 1) (bound dst p) p (bound src (s + count))
      (λ l below. memcpy_inside grown.ih src.ih p s count (p + l) l refl below)
      (omega (arith, e.grown, grown_bounds))
      (λ a b ab below.
        omega (arith, at a (omega arith), at b below, bound_mono vs (s + a) (s + b) (omega arith)))
      (λ a below. omega (arith, at a below, bound_mono vs (s + a) (s + count) (omega arith)))
      (omega (arith, room, at_start, bound_top vd p, vd.fits, vd.small)) k lt
    ∙ ap (with_offset (src.ih (s + k))) (omega (arith, at k lt, at_start))
  where
    at : (a : ℕ) → a < count → bound src (s + a) ≡ (src.ih (s + a)).offset
    at a below = bound_item src (s + a) (omega arith)

    at_start : (bound src s ≡ (src.ih (s + 0)).offset) × (bound src s ≤ bound src (s + count))
    at_start =
        (ap (bound src) {x = s} {y = s + 0} (omega arith) ∙ at 0 (omega arith), bound_le vs count s)

    grown_bounds : dst.num_items + count < u16_mod
    grown_bounds = omega (
      arith,
      vd.fits,
      vd.small,
      headers_le (dst.num_items + count) dst.keypol,
      headers_add dst.num_items count (ih_size dst.keypol),
    )

copied-Spliced :
    (dst grown : Node) (p : ℕ) (src : Node) (s count : ℕ)
    → IsValid dst
    → IsValid src
    → p ≤ dst.num_items
    → 0 < count
    → s + count ≤ src.num_items
    → span src s count + count * ih_size dst.keypol ≤ dst.free_space
    → Expanded dst grown p (span src s count) count
    → Spliced dst (copied dst grown p src s count) p src s count
unfolding copied
copied-Spliced dst grown p src s count vd vs le some top room e = record {
  grown = e.grown;
  start = e.start;
  left = e.left;
  same_size = e.same_size;
  same_pol = e.same_pol;
  dirtied = refl;
  before = λ j lt.
      copy_offsets_before count _ _ _ _ p j lt
      ∙ memcpy_before grown.ih src.ih p s count j lt
      ∙ e.before j lt;
  inside = λ k lt. copied_inside dst grown p src s count k vd vs le top e room lt;
  behind = λ j from lt.
      copy_offsets_behind count _ _ _ _ p (j + count) (omega arith)
      ∙ memcpy_behind grown.ih src.ih p s count (j + count) (omega arith)
      ∙ e.behind j from lt;
  low = λ a lt.
      memcpy_before grown.bytes src.bytes (bound dst p) (src.ih s).offset (span src s count) a lt
      ∙ e.low a lt;
  middle = λ k lt.
      memcpy_inside grown.bytes src.bytes (bound dst p) (src.ih s).offset (span src s count)
        (bound dst p + k) k refl lt
      ∙ ap src.bytes (omega (arith, bound_item src s (omega arith)));
  high = λ a from lt.
      memcpy_behind grown.bytes src.bytes (bound dst p) (src.ih s).offset (span src s count)
        (a + span src s count) (omega arith)
      ∙ e.high a from lt;
}

pub copy-Spliced :
    (dst grown : Node) (p : ℕ) (src : Node) (s count : ℕ)
    → IsValid dst
    → IsValid src
    → p ≤ dst.num_items
    → 0 < count
    → s + count ≤ src.num_items
    → span src s count + count * ih_size dst.keypol ≤ dst.free_space
    → Expanded dst grown p (span src s count) count
    → Made dst grown p
    → Spliced dst
        (copy grown
          (record { item = p; unit = max_uint32 })
          src
          (record { item = s; unit = max_uint32 })
          count)
        p
        src
        s
        count
copy-Spliced dst grown p src s count vd vs le some top room e made =
    rw (copy-copied dst grown p src s count vd vs le (omega arith) top e made)
      (copied-Spliced dst grown p src s count vd vs le some top room e)
