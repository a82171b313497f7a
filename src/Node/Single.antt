-- ===== src/Node/Single.antt =====
-- A new item as a node of its own: making room for it and filling in its header is splicing.
use reiser4progs.Prelude.{
  ℕ, ◌+◌, ◌%◌, ◌≤◌, ◌<◌, ◌≡◌, refl, ◌∙◌, ap, ap₂, inl, inr, ◌⊎◌, List, arith, u16_mod, update_same,
  update_other,
}
use reiser4progs.Node.{ItemHeader, Node, ih_size}
use reiser4progs.Node.Contents.{bound, IsValid}
use reiser4progs.Node.Expand.{Expanded, Made}
use reiser4progs.Node.Splice.{Spliced}
use reiser4progs.Node.Copy.{with_offset}
use reiser4progs.Node.Place.{put_bytes}
use reiser4progs.Node.Modify.{put_item}

-- A node with one item.
unfoldable pub single : ItemHeader → ℕ → (ℕ → ℕ) → Node → Node
single h len bytes node = record node {
  num_items = 1;
  ih = λ i. h;
  bytes = bytes;
  free_space_start = len;
  free_space = 0;
  block_size = len + ih_size node.keypol;
}

pub single_bounds :
    (h : ItemHeader) (len : ℕ) (bytes : ℕ → ℕ) (node : Node)
    → h.offset ≡ 0
    → (bound (single h len bytes node) 0 ≡ 0) × (bound (single h len bytes node) 1 ≡ len)
unfolding bound single
single_bounds h len bytes node e = (e, refl)

pub single-IsValid :
    (h : ItemHeader) (len : ℕ) (bytes : ℕ → ℕ) (node : Node)
    → h.offset ≡ 0
    → len + ih_size node.keypol < u16_mod
    → IsValid (single h len bytes node)
unfolding single
single-IsValid h len bytes node e lt = record {
  ordered = λ i below. omega (
    arith,
    single_bounds h len bytes node e,
    ap (bound (single h len bytes node)) {x = i} {y = 0} (omega arith),
    ap (bound (single h len bytes node)) {x = i + 1} {y = 1} (omega arith),
  );
  fits = omega arith;
  small = lt;
}

-- The header of the new item, as that of a node of its own.
abbrev pub new_header : ℕ → List ℕ → ItemHeader
new_header pid key = record { key = key; offset = 0; flags = 0; pid = pid % u16_mod }

pub Made-Spliced :
    (node grown : Node) (p len pid : ℕ) (key : List ℕ) (bytes : ℕ → ℕ)
    → p ≤ node.num_items
    → Expanded node grown p len 1
    → Made node grown p
    → ((a : ℕ) → (a < bound node p) ⊎ (bound node p + len ≤ a) → bytes a ≡ grown.bytes a)
    → Spliced node
        (put_bytes (put_item grown p pid key) bytes)
        p
        (single (new_header pid key) len (λ k. bytes (bound node p + k)) node)
        0
        1
unfolding single
Made-Spliced node grown p len pid key bytes le e made outside = record {
  grown = e.grown;
  start = omega (arith, e.start, ends);
  left = omega (arith, e.left, ends);
  same_size = e.same_size;
  same_pol = e.same_pol;
  dirtied = e.dirtied;
  before = λ j lt. update_other grown.ih p j _ (omega arith) ∙ e.before j lt;
  inside = λ k lt.
      update_same grown.ih p (p + k) _ (omega arith)
      ∙ ap₂ (λ o f. record (new_header pid key) { offset = o; flags = f })
          (made.0 ∙ omega (arith, ends, ap (bound src) {x = 0 + k} {y = 0} (omega arith))) made.1;
  behind = λ j from lt.
      update_other grown.ih p (j + 1) _ (omega arith)
      ∙ e.behind j from lt
      ∙ ap (λ o. with_offset (node.ih j) ((node.ih j).offset + o)) (omega (arith, ends));
  low = λ a lt. outside a (inl lt) ∙ e.low a lt;
  middle = λ k lt. ap bytes (omega (arith, ends));
  high = λ a from lt.
      ap bytes {y = a + len} (omega (arith, ends))
      ∙ outside (a + len) (inr (omega arith))
      ∙ e.high a from lt;
}
  where
    src : Node
    src = single (new_header pid key) len (λ k. bytes (bound node p + k)) node

    ends : (bound src 0 ≡ 0) × (bound src 1 ≡ len)
    ends = single_bounds (new_header pid key) len (λ k. bytes (bound node p + k)) node refl
