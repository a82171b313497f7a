-- ===== src/Node/Changed.antt =====
-- The items of a node, one of which was resized.
use reiser4progs.Prelude.{
  ℕ, ◌+◌, ◌-◌, ◌*◌, ◌≤◌, ◌<◌, ◌≡◌, ◌≢◌, ◌∙◌, sym, ap, ap₂, inl, inr, ◌⊎◌, List, length,
  length-tabulate, arith,
}
use reiser4progs.Node.{Node, ih_size}
use reiser4progs.Node.Contents.{
  item_at, item_of, item_of_ext, bound, IsValid, bound_item, bound_end, bound_mono, bound_top,
}
use reiser4progs.Node.Splice.{span}
use reiser4progs.Node.Resize.{Resized}

-- Only the body of item `p` differs, which is of this length, and its key.
pub record Changed (node node' : Node) (p len : ℕ) (key : List ℕ) : Type 0 where
  pub node_IsValid : IsValid node'
  pub same_count : node'.num_items ≡ node.num_items
  pub others : (j : ℕ) → j < node.num_items → j ≢ p → item_at node' j ≡ item_at node j
  pub new_key : (item_at node' p).key ≡ key
  pub same_pid : (item_at node' p).pid ≡ (item_at node p).pid
  pub same_flags : (item_at node' p).flags ≡ (item_at node p).flags
  pub new_len : length (item_at node' p).body ≡ len

module _ (old node : Node) (p cut grow : ℕ) (key : List ℕ) (v : IsValid old)
    (lt : p < old.num_items) (le : cut ≤ span old p 1) (r : Resized old node p cut grow key) where
  less : (i n : ℕ) → (i < n) ⊎ (n ≤ i)
  less i n = ground arith

  pub bound-before : (j : ℕ) → j ≤ p → bound node j ≡ bound old j
  bound-before j h = elim (less j p) [
    | inl below ↦
        bound_item node j (omega (arith, r.same_count))
        ∙ ap (λ h. h.offset) (r.before j below)
        ∙ sym (bound_item old j (omega arith))
    | inr there ↦
        ap (bound node) {y = p} (omega arith)
        ∙ bound_item node p (omega (arith, r.same_count))
        ∙ ap (λ h. h.offset) r.at
        ∙ sym (bound_item old p lt)
        ∙ ap (bound old) (omega arith)
  ]

  pub bound-behind : (j : ℕ) → p < j → bound node j ≡ bound old j + grow - cut
  bound-behind j from = elim (less j old.num_items) [
    | inl below ↦
        bound_item node j (omega (arith, r.same_count))
        ∙ ap (λ h. h.offset) (r.behind j from below)
        ∙ omega (arith, bound_item old j below)
    | inr above ↦
        omega
          (arith, bound_end node j (omega (arith, r.same_count)), bound_end old j above, r.start)
  ]

  item-before : (j : ℕ) → j < p → item_at node j ≡ item_at old j
  unfolding item_at
  item-before j below =
      item_of_ext (old.ih j) (node.ih j) old.bytes node.bytes (bound old j) (bound old (j + 1))
        (bound node j) (bound node (j + 1)) (ap (λ h. h.key) (r.before j below))
        (ap (λ h. h.flags) (r.before j below)) (ap (λ h. h.pid) (r.before j below))
        (omega (arith, bound-before j (omega arith), bound-before (j + 1) (omega arith)))
        (λ k inside.
          ap (λ b. node.bytes (b + k)) (bound-before j (omega arith))
          ∙ r.low (bound old j + k) (omega (arith, bound_mono v (j + 1) p (omega arith))))

  -- The end of item `p` and what lies behind it.
  ends :
      (j : ℕ)
      → p < j
      → (cut ≤ bound old j)
        × (bound old (p + 1) ≤ bound old j)
        × (bound old j ≤ old.free_space_start)
  ends j from = omega (
    arith,
    bound_mono v p (p + 1) (omega arith),
    bound_mono v (p + 1) j (omega arith),
    bound_top v j,
  )

  item-behind : (j : ℕ) → p < j → j < old.num_items → item_at node j ≡ item_at old j
  unfolding item_at
  item-behind j from below =
      item_of_ext (old.ih j) (node.ih j) old.bytes node.bytes (bound old j) (bound old (j + 1))
        (bound node j) (bound node (j + 1)) (ap (λ h. h.key) (r.behind j from below))
        (ap (λ h. h.flags) (r.behind j from below)) (ap (λ h. h.pid) (r.behind j from below))
        (omega (
          arith,
          bound-behind j from,
          bound-behind (j + 1) (omega arith),
          ends j from,
          bound_mono v j (j + 1) (omega arith),
        ))
        (λ k inside.
          ap node.bytes {y = bound old j + k + grow - cut}
            (omega (arith, bound-behind j from, ends j from))
          ∙ r.high (bound old j + k) (omega (arith, ends j from))
              (omega (arith, ends (j + 1) (omega arith))))

  others : (j : ℕ) → j < old.num_items → j ≢ p → item_at node j ≡ item_at old j
  others j below ne = elim (less j p) [
    | inl front ↦ item-before j front
    | inr rear ↦ item-behind j (omega arith) below
  ]

  node-IsValid : IsValid node
  node-IsValid = record {
    ordered = λ i below. ordered i below;
    fits = omega (
      arith,
      ap₂ (λ n k. n * ih_size k) r.same_count r.same_pol,
      r.left,
      r.start,
      r.same_size,
      v.fits,
      bound_top v (p + 1),
      bound_mono v p (p + 1) (omega arith),
    );
    small = omega (arith, r.same_size, v.small);
  }
    where
      where_is : (i : ℕ) → (i < p) ⊎ ((i ≡ p) ⊎ (p < i))
      where_is i = ground arith

      ordered : (i : ℕ) → i < node.num_items → bound node i ≤ bound node (i + 1)
      ordered i below = elim (where_is i) [
        | inl front ↦ omega (
          arith,
          bound-before i (omega arith),
          bound-before (i + 1) (omega arith),
          bound_mono v i (i + 1) (omega arith),
        )
        | inr (inl there) ↦ omega (
          arith,
          bound-before i (omega arith),
          bound-behind (i + 1) (omega arith),
          bound_mono v i (i + 1) (omega arith),
          ap (bound old) {x = i} {y = p} there,
          ap (bound old) {x = i + 1} {y = p + 1} (omega arith),
        )
        | inr (inr rear) ↦ omega (
          arith,
          bound-behind i rear,
          bound-behind (i + 1) (omega arith),
          ends i rear,
          bound_mono v i (i + 1) (omega arith),
        )
      ]

  pub Resized-Changed : Changed old node p (span old p 1 + grow - cut) key
  unfolding item_at item_of
  Resized-Changed = record {
    node_IsValid = node-IsValid;
    same_count = r.same_count;
    others = others;
    new_key = ap (λ h. h.key) r.at;
    same_pid = ap (λ h. h.pid) r.at;
    same_flags = ap (λ h. h.flags) r.at;
    new_len =
        length-tabulate _ _
        ∙ omega (
          arith,
          bound-before p (omega arith),
          bound-behind (p + 1) (omega arith),
          bound_mono v p (p + 1) (omega arith),
        );
  }
