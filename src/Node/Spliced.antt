-- ===== src/Node/Spliced.antt =====
-- The list of items of a node that others were spliced into.
use reiser4progs.Prelude.{
  ℕ, ◌+◌, ◌-◌, ◌*◌, ◌≤◌, ◌<◌, ◌≡◌, ◌∙◌, sym, ap, ap₂, inl, inr, ◌++◌, take, drop, tabulate,
  tabulate_ext, tabulate-add, take-tabulate, drop-tabulate, arith, ◌⊎◌,
}
use reiser4progs.Node.{ItemHeader, Node, ih_size}
use reiser4progs.Node.Contents.{
  item_of_ext, item_at, items_of, bound, IsValid, bound_end, bound_item, bound_mono, bound_top,
  headers_add,
}
use reiser4progs.Node.Splice.{Spliced, span}

module _ (dst node : Node) (p : ℕ) (src : Node) (s count : ℕ) (vd : IsValid dst) (vs : IsValid src)
    (le : p ≤ dst.num_items) (some : 0 < count) (top : s + count ≤ src.num_items)
    (r : Spliced dst node p src s count) where
  offset_of :
      (j : ℕ) → j < node.num_items → {h : ItemHeader} → node.ih j ≡ h → bound node j ≡ h.offset
  offset_of j lt e = bound_item node j lt ∙ ap (λ h. h.offset) e

  bound-inside :
      (k : ℕ) → k < count → bound node (p + k) ≡ bound dst p + (bound src (s + k) - bound src s)
  bound-inside k lt = offset_of (p + k) (omega (arith, r.grown)) (r.inside k lt)

  pub bound-before : (j : ℕ) → j ≤ p → bound node j ≡ bound dst j
  bound-before j h = elim (less j p) [
    | inl lt ↦
        offset_of j (omega (arith, r.grown)) (r.before j lt) ∙ sym (bound_item dst j (omega arith))
    | inr ge ↦ omega (
      arith,
      bound-inside 0 some,
      ap (bound node) {x = p + 0} {y = j} (omega arith),
      ap (bound src) {x = s + 0} {y = s} (omega arith),
      ap (bound dst) {x = p} {y = j} (omega arith),
    )
  ]
    where
      less : (i n : ℕ) → (i < n) ⊎ (n ≤ i)
      less i n = ground arith

  pub bound-behind : (j : ℕ) → p ≤ j → bound node (j + count) ≡ bound dst j + span src s count
  bound-behind j from = elim (less j dst.num_items) [
    | inl lt ↦
        offset_of (j + count) (omega (arith, r.grown)) (r.behind j from lt)
        ∙ omega (arith, bound_item dst j lt)
    | inr ge ↦
        omega
          (arith, bound_end node (j + count) (omega (arith, r.grown)), r.start, bound_end dst j ge)
  ]
    where
      less : (i n : ℕ) → (i < n) ⊎ (n ≤ i)
      less i n = ground arith

  -- Also at the end of the new items.
  bound-middle :
      (k : ℕ) → k ≤ count → bound node (p + k) ≡ bound dst p + (bound src (s + k) - bound src s)
  bound-middle k h = elim (less k count) [
    | inl lt ↦ bound-inside k lt
    | inr ge ↦ omega (
      arith,
      bound-behind p (omega arith),
      ap (bound node) {x = p + count} {y = p + k} (omega arith),
      ap (bound src) {x = s + count} {y = s + k} (omega arith),
    )
  ]
    where
      less : (i n : ℕ) → (i < n) ⊎ (n ≤ i)
      less i n = ground arith

  item-before : (j : ℕ) → j < p → item_at node j ≡ item_at dst j
  unfolding item_at
  item-before j lt =
      item_of_ext (dst.ih j) (node.ih j) dst.bytes node.bytes (bound dst j) (bound dst (j + 1))
        (bound node j) (bound node (j + 1)) (ap (λ h. h.key) (r.before j lt))
        (ap (λ h. h.flags) (r.before j lt)) (ap (λ h. h.pid) (r.before j lt))
        (omega (arith, bound-before j (omega arith), bound-before (j + 1) (omega arith)))
        (λ k below.
          ap (λ b. node.bytes (b + k)) (bound-before j (omega arith))
          ∙ r.low (bound dst j + k) (omega (arith, bound_mono vd (j + 1) p (omega arith))))

  pub item-inside : (k : ℕ) → k < count → item_at node (p + k) ≡ item_at src (s + k)
  unfolding item_at
  item-inside k lt =
      item_of_ext (src.ih (s + k)) (node.ih (p + k)) src.bytes node.bytes (bound src (s + k))
        (bound src (s + k + 1)) (bound node (p + k)) (bound node (p + k + 1))
        (ap (λ h. h.key) (r.inside k lt)) (ap (λ h. h.flags) (r.inside k lt))
        (ap (λ h. h.pid) (r.inside k lt))
        (omega (
          arith,
          bound-inside k lt,
          bound-middle (k + 1) (omega arith),
          ap (bound node) {x = p + k + 1} {y = p + (k + 1)} (omega arith),
          ap (bound src) {x = s + k + 1} {y = s + (k + 1)} (omega arith),
          bound_mono vs s (s + k) (omega arith),
          bound_mono vs (s + k) (s + k + 1) (omega arith),
        ))
        (λ j below.
          ap node.bytes {x = bound node (p + k) + j}
            {y = bound dst p + (bound src (s + k) - bound src s + j)}
            (omega (arith, bound-inside k lt))
          ∙ r.middle (bound src (s + k) - bound src s + j) (
              omega (
                arith,
                bound_mono vs s (s + k) (omega arith),
                bound_mono vs (s + k + 1) (s + count) (omega arith),
              ))
          ∙ ap src.bytes (omega (arith, bound_mono vs s (s + k) (omega arith))))

  item-behind : (j : ℕ) → p ≤ j → j < dst.num_items → item_at node (j + count) ≡ item_at dst j
  unfolding item_at
  item-behind j from lt =
      item_of_ext (dst.ih j) (node.ih (j + count)) dst.bytes node.bytes (bound dst j)
        (bound dst (j + 1)) (bound node (j + count)) (bound node (j + count + 1))
        (ap (λ h. h.key) (r.behind j from lt)) (ap (λ h. h.flags) (r.behind j from lt))
        (ap (λ h. h.pid) (r.behind j from lt))
        (omega (
          arith,
          bound-behind j from,
          bound-behind (j + 1) (omega arith),
          ap (bound node) {x = j + count + 1} {y = j + 1 + count} (omega arith),
        ))
        (λ k below.
          ap node.bytes {x = bound node (j + count) + k} {y = bound dst j + k + span src s count}
            (omega (arith, bound-behind j from))
          ∙ r.high (bound dst j + k) (omega (arith, bound_mono vd p j from))
              (omega (arith, bound_top vd (j + 1))))

  pub node-IsValid : IsValid node
  node-IsValid = record {
    ordered = λ i lt. ordered i lt;
    fits = omega (
      arith,
      ap₂ (λ n k. n * ih_size k) r.grown r.same_pol,
      headers_add dst.num_items count (ih_size dst.keypol),
      r.left,
      r.start,
      r.same_size,
      vd.fits,
    );
    small = omega (arith, r.same_size, vd.small);
  }
    where
      where_is : (i : ℕ) → (i < p) ⊎ (((p ≤ i) × (i < p + count)) ⊎ (p + count ≤ i))
      where_is i = ground arith

      ordered : (i : ℕ) → i < node.num_items → bound node i ≤ bound node (i + 1)
      ordered i lt = elim (where_is i) [
        | inl front ↦ omega (
          arith,
          bound-before i (omega arith),
          bound-before (i + 1) (omega arith),
          vd.ordered i (omega arith),
        )
        | inr (inl within) ↦ omega (
          arith,
          bound-middle (i - p) (omega arith),
          bound-middle (i - p + 1) (omega arith),
          bound_mono vs (s + (i - p)) (s + (i - p + 1)) (omega arith),
          bound_mono vs s (s + (i - p)) (omega arith),
          ap (bound node) {x = p + (i - p)} {y = i} (omega arith),
          ap (bound node) {x = p + (i - p + 1)} {y = i + 1} (omega arith),
        )
        | inr (inr rear) ↦ omega (
          arith,
          r.grown,
          bound-behind (i - count) (omega arith),
          bound-behind (i - count + 1) (omega arith),
          vd.ordered (i - count) (omega (arith, r.grown)),
          ap (bound node) {x = i - count + count} {y = i} (omega arith),
          ap (bound node) {x = i - count + 1 + count} {y = i + 1} (omega arith),
        )
      ]

  pub items_of-node :
      items_of node
      ≡ take p (items_of dst) ++ take count (drop s (items_of src)) ++ drop p (items_of dst)
  unfolding items_of
  items_of-node =
      ap (λ n. tabulate n (item_at node)) {y = p + count + (dst.num_items - p)}
        (omega (arith, r.grown))
      ∙ tabulate-add (p + count) (dst.num_items - p) (item_at node)
      ∙ ap₂ (λ xs ys. xs ++ ys)
          (tabulate-add p count (item_at node) ∙ ap₂ (λ xs ys. xs ++ ys) front within) rear
    where
      front : tabulate p (item_at node) ≡ take p (tabulate dst.num_items (item_at dst))
      front =
          tabulate_ext p (item_at node) (item_at dst) item-before
          ∙ sym (take-tabulate p dst.num_items (item_at dst) le)

      within :
          tabulate count (λ i. item_at node (p + i))
          ≡ take count (drop s (tabulate src.num_items (item_at src)))
      within =
          tabulate_ext count (λ i. item_at node (p + i)) (λ i. item_at src (s + i)) item-inside
          ∙ sym (
              ap (take count) (drop-tabulate s src.num_items (item_at src) (omega arith))
              ∙ take-tabulate count (src.num_items - s) (λ i. item_at src (s + i)) (omega arith))

      rear :
          tabulate (dst.num_items - p) (λ i. item_at node (p + count + i))
          ≡ drop p (tabulate dst.num_items (item_at dst))
      rear =
          tabulate_ext (dst.num_items - p) (λ i. item_at node (p + count + i))
            (λ i. item_at dst (p + i))
            (λ i lt.
              ap (item_at node) {x = p + count + i} {y = p + i + count} (omega arith)
              ∙ item-behind (p + i) (omega arith) (omega arith))
          ∙ sym (drop-tabulate p dst.num_items (item_at dst) le)
