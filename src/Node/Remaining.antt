-- ===== src/Node/Remaining.antt =====
-- The list of items of a node that some were cut out of.
use reiser4progs.Prelude.{
  ℕ, ◌+◌, ◌-◌, ◌*◌, ◌≤◌, ◌<◌, ◌≡◌, ◌∙◌, sym, ap, ap₂, inl, inr, ◌++◌, take, drop, tabulate,
  tabulate_ext, tabulate-add, take-tabulate, drop-tabulate, arith, ◌⊎◌,
}
use reiser4progs.Node.{ItemHeader, Node, ih_size}
use reiser4progs.Node.Contents.{
  item_of_ext, item_at, items_of, bound, IsValid, bound_end, bound_item, bound_mono, bound_top,
  headers_add,
}
use reiser4progs.Node.Splice.{span}
use reiser4progs.Node.Shrink.{Cut}

module _ (old node : Node) (p count : ℕ) (v : IsValid old) (le : p + count ≤ old.num_items)
    (r : Cut old node p count) where
  offset_of :
      (j : ℕ) → j < node.num_items → {h : ItemHeader} → node.ih j ≡ h → bound node j ≡ h.offset
  offset_of j lt e = bound_item node j lt ∙ ap (λ h. h.offset) e

  less : (i n : ℕ) → (i < n) ⊎ (n ≤ i)
  less i n = ground arith

  bound-behind : (j : ℕ) → p ≤ j → bound node j ≡ bound old (j + count) - span old p count
  bound-behind j from = elim (less j node.num_items) [
    | inl lt ↦
        offset_of j lt (r.behind j from lt)
        ∙ omega (arith, bound_item old (j + count) (omega (arith, r.fewer)))
    | inr ge ↦
        omega
          (arith, bound_end node j ge, r.start, bound_end old (j + count) (omega (arith, r.fewer)))
  ]

  bound-before : (j : ℕ) → j ≤ p → bound node j ≡ bound old j
  bound-before j h = elim (less j p) [
    | inl lt ↦
        offset_of j (omega (arith, r.fewer)) (r.before j lt) ∙ sym (bound_item old j (omega arith))
    | inr ge ↦ omega (
      arith,
      bound-behind j ge,
      bound_mono v p (p + count) (omega arith),
      ap (bound old) {x = p + count} {y = j + count} (omega arith),
      ap (bound old) {x = p} {y = j} (omega arith),
    )
  ]

  item-before : (j : ℕ) → j < p → item_at node j ≡ item_at old j
  unfolding item_at
  item-before j lt =
      item_of_ext (old.ih j) (node.ih j) old.bytes node.bytes (bound old j) (bound old (j + 1))
        (bound node j) (bound node (j + 1)) (ap (λ h. h.key) (r.before j lt))
        (ap (λ h. h.flags) (r.before j lt)) (ap (λ h. h.pid) (r.before j lt))
        (omega (arith, bound-before j (omega arith), bound-before (j + 1) (omega arith)))
        (λ k below.
          ap (λ b. node.bytes (b + k)) (bound-before j (omega arith))
          ∙ r.low (bound old j + k) (omega (arith, bound_mono v (j + 1) p (omega arith))))

  item-behind : (j : ℕ) → p ≤ j → j < node.num_items → item_at node j ≡ item_at old (j + count)
  unfolding item_at
  item-behind j from lt =
      item_of_ext (old.ih (j + count)) (node.ih j) old.bytes node.bytes (bound old (j + count))
        (bound old (j + count + 1)) (bound node j) (bound node (j + 1))
        (ap (λ h. h.key) (r.behind j from lt)) (ap (λ h. h.flags) (r.behind j from lt))
        (ap (λ h. h.pid) (r.behind j from lt))
        (omega (
          arith,
          ends,
          bound_mono v p (p + count) (omega arith),
          bound_mono v (p + count) (j + count) (omega arith),
          bound_mono v (j + count) (j + count + 1) (omega arith),
        ))
        (λ k below.
          r.high (bound node j + k)
            (omega (
              arith,
              ends,
              bound_mono v p (p + count) (omega arith),
              bound_mono v (p + count) (j + count) (omega arith),
            ))
            (omega (
              arith,
              ends,
              r.start,
              bound_top v (j + count + 1),
              bound_mono v p (p + count) (omega arith),
              bound_mono v (p + count) (j + count) (omega arith),
            ))
          ∙ ap old.bytes (
              omega (
                arith,
                ends,
                bound_mono v p (p + count) (omega arith),
                bound_mono v (p + count) (j + count) (omega arith),
              )))
    where
      ends :
          (bound node j ≡ bound old (j + count) - span old p count)
          × (bound node (j + 1) ≡ bound old (j + count + 1) - span old p count)
      ends = (
        bound-behind j from,
        omega (
          arith,
          bound-behind (j + 1) (omega arith),
          ap (bound old) {x = j + 1 + count} {y = j + count + 1} (omega arith),
        ),
      )

  pub node-IsValid : IsValid node
  node-IsValid = record {
    ordered = λ i lt. ordered i lt;
    fits = omega (
      arith,
      ap (λ n. n * ih_size old.keypol) r.fewer,
      ap (λ k. node.num_items * ih_size k) r.same_pol,
      headers_add node.num_items count (ih_size old.keypol),
      r.left,
      r.start,
      r.same_size,
      v.fits,
    );
    small = omega (arith, r.same_size, v.small);
  }
    where
      ordered : (i : ℕ) → i < node.num_items → bound node i ≤ bound node (i + 1)
      ordered i lt = elim (less i p) [
        | inl front ↦ omega (
          arith,
          bound-before i (omega arith),
          bound-before (i + 1) (omega arith),
          v.ordered i (omega arith),
        )
        | inr rear ↦ omega (
          arith,
          bound-behind i rear,
          bound-behind (i + 1) (omega arith),
          bound_mono v (i + count) (i + 1 + count) (omega arith),
        )
      ]

  pub items_of-node : items_of node ≡ take p (items_of old) ++ drop (p + count) (items_of old)
  unfolding items_of
  items_of-node =
      ap (λ n. tabulate n (item_at node)) {y = p + (old.num_items - (p + count))}
        (omega (arith, r.fewer))
      ∙ tabulate-add p (old.num_items - (p + count)) (item_at node)
      ∙ ap₂ (λ xs ys. xs ++ ys) front rear
    where
      front : tabulate p (item_at node) ≡ take p (tabulate old.num_items (item_at old))
      front =
          tabulate_ext p (item_at node) (item_at old) item-before
          ∙ sym (take-tabulate p old.num_items (item_at old) (omega arith))

      rear :
          tabulate (old.num_items - (p + count)) (λ i. item_at node (p + i))
          ≡ drop (p + count) (tabulate old.num_items (item_at old))
      rear =
          tabulate_ext (old.num_items - (p + count)) (λ i. item_at node (p + i))
            (λ i. item_at old (p + count + i))
            (λ i lt.
              item-behind (p + i) (omega arith) (omega (arith, r.fewer))
              ∙ ap (item_at old) (omega arith))
          ∙ sym (drop-tabulate (p + count) old.num_items (item_at old) le)
