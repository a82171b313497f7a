-- ===== src/Node/Merge.antt =====
-- node40_merge of two items whose plugin has no merge of its own: the bodies become one.
use reiser4progs.Prelude.{
  ℕ, ◌+◌, ◌-◌, ◌*◌, ◌≤◌, ◌<◌, ◌≡◌, refl, ◌∙◌, sym, ap, ap₂, inl, inr, ◌⊎◌, Bool, true, false,
  Bool-cases, Option, none, [], ◌∷◌, ◌++◌, take, drop, if◌then◌else◌, ltb, ◌||◌, arith, memmove,
  memcpy_inside, memcpy_before, tabulate, tabulate_ext, tabulate-add, take-tabulate, drop-tabulate,
}
use reiser4progs.Node.{ItemHeader, Node, Pos, ih_size, mkdirty}
use reiser4progs.Node.Contents.{
  Item, item_of, items_of, item_at, bound, IsValid, bound_item, bound_end, bound_mono, valid_bounds,
  headers_add, ih_size_le,
}
use reiser4progs.Node.Place.{Place, place_of, ItemPlugs, fetch, fetch_known}
use reiser4progs.Node.Modify.{merge, merge_fetched, merge_bodies, drop_header}

-- `node'` has lost the header behind that of item `l`.
pub record Dropped (node node' : Node) (l : ℕ) : Type 0 where
  pub fewer : node'.num_items + 1 ≡ node.num_items
  pub start : node'.free_space_start ≡ node.free_space_start
  pub left : node'.free_space ≡ node.free_space + ih_size node.keypol
  pub same_size : node'.block_size ≡ node.block_size
  pub same_pol : node'.keypol ≡ node.keypol
  pub front : (j : ℕ) → j ≤ l → node'.ih j ≡ node.ih j
  pub rear : (j : ℕ) → l < j → j < node'.num_items → node'.ih j ≡ node.ih (j + 1)
  pub same_bytes : node'.bytes ≡ node.bytes

drop_header-Dropped :
    (plugs : ItemPlugs) (node : Node) (l : ℕ)
    → IsValid node
    → l + 1 < node.num_items
    → Dropped node (drop_header plugs node l (l + 1)) l
unfolding drop_header mkdirty
drop_header-Dropped plugs node l v lt = record {
  fewer = omega (arith, valid_bounds v);
  start = refl;
  left = omega (arith, valid_bounds v, v.fits, v.small, ih_size_le node.keypol, one_header);
  same_size = refl;
  same_pol = refl;
  front = λ j le. front j le;
  rear = λ j from below. rear j from (omega (arith, valid_bounds v));
  same_bytes = refl;
}
  where
    moved : ℕ → ItemHeader
    moved = memmove node.ih (l + 1) (l + 1 + 1) (node.num_items - (l + 1) - 1)

    front :
        (j : ℕ)
        → j ≤ l
        → (if ltb (l + 1) (node.num_items - 1) then moved else node.ih) j ≡ node.ih j
    front j le = elim (Bool-cases (ltb (l + 1) (node.num_items - 1))) [
      | inl more ↦ rw more (
          memcpy_before node.ih node.ih (l + 1) (l + 1 + 1) (node.num_items - (l + 1) - 1) j
            (omega arith))
      | inr last ↦ rw last
    ]

    rear :
        (j : ℕ)
        → l < j
        → j < node.num_items - 1
        → (if ltb (l + 1) (node.num_items - 1) then moved else node.ih) j ≡ node.ih (j + 1)
    rear j from below = rw more (
        memcpy_inside node.ih node.ih (l + 1) (l + 1 + 1) (node.num_items - (l + 1) - 1) j
          (j - (l + 1)) (omega arith) (omega arith)
        ∙ ap node.ih (omega arith))
      where
        more : ltb (l + 1) (node.num_items - 1) ≡ true
        more = ground arith

    one_header :
        node.num_items * ih_size node.keypol
        ≡ (node.num_items - 1) * ih_size node.keypol + 1 * ih_size node.keypol
    one_header =
        ap (λ n. n * ih_size node.keypol) {y = node.num_items - 1 + 1} (omega arith)
        ∙ headers_add (node.num_items - 1) 1 (ih_size node.keypol)

-- The two items as one.
abbrev pub merged : Node → ℕ → Item
merged node l = record (item_at node l) {
  body = (item_at node l).body ++ (item_at node (l + 1)).body;
}

module _ (node node' : Node) (l : ℕ) (v : IsValid node) (lt : l + 1 < node.num_items)
    (r : Dropped node node' l) where
  less : (i n : ℕ) → (i < n) ⊎ (n ≤ i)
  less i n = ground arith

  bound-front : (j : ℕ) → j ≤ l → bound node' j ≡ bound node j
  bound-front j le =
      bound_item node' j (omega (arith, r.fewer))
      ∙ ap (λ h. h.offset) (r.front j le)
      ∙ sym (bound_item node j (omega arith))

  bound-rear : (j : ℕ) → l < j → bound node' j ≡ bound node (j + 1)
  bound-rear j from = elim (less j node'.num_items) [
    | inl below ↦
        bound_item node' j below
        ∙ ap (λ h. h.offset) (r.rear j from below)
        ∙ sym (bound_item node (j + 1) (omega (arith, r.fewer)))
    | inr above ↦
        bound_end node' j above ∙ r.start ∙ sym (bound_end node (j + 1) (omega (arith, r.fewer)))
  ]

  item-front : (j : ℕ) → j < l → item_at node' j ≡ item_at node j
  unfolding item_at
  item-front j below = λ i.
      item_of (r.front j (omega arith) i) (r.same_bytes i) (bound-front j (omega arith) i)
        (bound-front (j + 1) (omega arith) i)

  item-rear : (j : ℕ) → l < j → j < node'.num_items → item_at node' j ≡ item_at node (j + 1)
  unfolding item_at
  item-rear j from below = λ i.
      item_of (r.rear j from below i) (r.same_bytes i) (bound-rear j from i)
        (bound-rear (j + 1) (omega arith) i)

  item-merged : item_at node' l ≡ merged node l
  unfolding item_at item_of
  item-merged = λ i. record {
    key = (r.front l (omega arith) i).key;
    flags = (r.front l (omega arith) i).flags;
    pid = (r.front l (omega arith) i).pid;
    body = body i;
  }
    where
      two_parts :
          tabulate (bound node (l + 1 + 1) - bound node l) (λ k. node.bytes (bound node l + k))
          ≡ tabulate (bound node (l + 1) - bound node l) (λ k. node.bytes (bound node l + k))
            ++ tabulate
                (bound node (l + 1 + 1) - bound node (l + 1))
                (λ k. node.bytes (bound node (l + 1) + k))
      two_parts =
          ap (λ n. tabulate n (λ k. node.bytes (bound node l + k)))
            {y = bound node (l + 1) - bound node l + (bound node (l + 1 + 1) - bound node (l + 1))}
            (omega (arith, v.ordered l (omega arith), v.ordered (l + 1) lt))
          ∙ tabulate-add (bound node (l + 1) - bound node l)
              (bound node (l + 1 + 1) - bound node (l + 1)) (λ k. node.bytes (bound node l + k))
          ∙ ap
              (λ xs.
                tabulate (bound node (l + 1) - bound node l) (λ k. node.bytes (bound node l + k))
                ++ xs)
              (tabulate_ext (bound node (l + 1 + 1) - bound node (l + 1)) _ _
                (λ k below. ap node.bytes (omega (arith, v.ordered l (omega arith)))))

      body :
          tabulate (bound node' (l + 1) - bound node' l) (λ k. node'.bytes (bound node' l + k))
          ≡ tabulate (bound node (l + 1) - bound node l) (λ k. node.bytes (bound node l + k))
            ++ tabulate
                (bound node (l + 1 + 1) - bound node (l + 1))
                (λ k. node.bytes (bound node (l + 1) + k))
      body =
          (λ i.
            tabulate (bound-rear (l + 1) (omega arith) i - bound-front l (omega arith) i)
              (λ k. r.same_bytes i (bound-front l (omega arith) i + k)))
          ∙ two_parts

  pub Dropped-IsValid : IsValid node'
  Dropped-IsValid = record {
    ordered = λ i below. ordered i below;
    fits = omega (
      arith,
      ap (λ n. n * ih_size node.keypol) r.fewer,
      headers_add node'.num_items 1 (ih_size node.keypol),
      ap (λ k. node'.num_items * ih_size k) r.same_pol,
      r.left,
      r.start,
      r.same_size,
      v.fits,
    );
    small = omega (arith, r.same_size, v.small);
  }
    where
      where_is : (i : ℕ) → (i < l) ⊎ ((i ≡ l) ⊎ (l < i))
      where_is i = ground arith

      ordered : (i : ℕ) → i < node'.num_items → bound node' i ≤ bound node' (i + 1)
      ordered i below = elim (where_is i) [
        | inl front ↦ omega (
          arith,
          bound-front i (omega arith),
          bound-front (i + 1) (omega arith),
          bound_mono v i (i + 1) (omega arith),
        )
        | inr (inl there) ↦ omega (
          arith,
          bound-front i (omega arith),
          bound-rear (i + 1) (omega arith),
          bound_mono v i (i + 1 + 1) (omega arith),
        )
        | inr (inr rear) ↦ omega (
          arith,
          bound-rear i rear,
          bound-rear (i + 1) (omega arith),
          bound_mono v (i + 1) (i + 1 + 1) (omega arith),
        )
      ]

  pub items_of-Dropped :
      items_of node'
      ≡ take l (items_of node) ++ (merged node l ∷ []) ++ drop (l + 2) (items_of node)
  unfolding items_of tabulate
  items_of-Dropped =
      ap (λ n. tabulate n (item_at node')) {y = l + 1 + (node.num_items - (l + 2))}
        (omega (arith, r.fewer))
      ∙ tabulate-add (l + 1) (node.num_items - (l + 2)) (item_at node')
      ∙ ap₂ (λ xs ys. xs ++ ys)
          (tabulate-add l 1 (item_at node') ∙ ap₂ (λ xs x. xs ++ (x ∷ [])) front middle) rear
    where
      front : tabulate l (item_at node') ≡ take l (tabulate node.num_items (item_at node))
      front =
          tabulate_ext l (item_at node') (item_at node) item-front
          ∙ sym (take-tabulate l node.num_items (item_at node) (omega arith))

      middle : item_at node' (l + 0) ≡ merged node l
      middle = ap (item_at node') {y = l} (omega arith) ∙ item-merged

      rear :
          tabulate (node.num_items - (l + 2)) (λ i. item_at node' (l + 1 + i))
          ≡ drop (l + 2) (tabulate node.num_items (item_at node))
      rear =
          tabulate_ext (node.num_items - (l + 2)) (λ i. item_at node' (l + 1 + i))
            (λ i. item_at node (l + 2 + i))
            (λ i below.
              item-rear (l + 1 + i) (omega arith) (omega (arith, r.fewer))
              ∙ ap (item_at node) (omega arith))
          ∙ sym (drop-tabulate (l + 2) node.num_items (item_at node) (omega arith))

-- For two neighbouring items of a valid node whose plugins are known and have no merge,
-- node40_merge succeeds and leaves a valid node in which one item, with the key, flags and plugin
-- of the left one, has the bodies of both, and the others are as before.
pub merge-items :
    (plugs : ItemPlugs) (node : Node) (l u w : ℕ)
    → IsValid node
    → l + 1 < node.num_items
    → plugs.known (node.ih l).pid ≡ true
    → plugs.known (node.ih (l + 1)).pid ≡ true
    → plugs.merge (node.ih l).pid ≡ none
    → let r =
        merge plugs node (record { item = l; unit = u }) (record { item = l + 1; unit = w }) in
      (r.1 ≡ true)
      × IsValid r.0
      × (items_of r.0
          ≡ take l (items_of node) ++ (merged node l ∷ []) ++ drop (l + 2) (items_of node))
unfolding merge merge_fetched merge_bodies place_of
merge-items plugs node l u w v lt known_left known_right no_merge =
    let d = drop_header-Dropped plugs node l v lt in
    rw same (refl, Dropped-IsValid node _ l v lt d, items_of-Dropped node _ l v lt d)
  where
    left_pos : Pos
    left_pos = record { item = l; unit = u }

    right_pos : Pos
    right_pos = record { item = l + 1; unit = w }

    side_by_side : (ltb (l + 1) (l + 1) || ltb (l + 1 + 1) l) ≡ false
    side_by_side = ground arith

    united : Option (Node → Place → Place → (ℕ → ℕ) × ℕ) → Node × Bool
    united func = (
      drop_header plugs
          (merge_bodies plugs node (place_of plugs node left_pos) (place_of plugs node right_pos)
            func)
          l (l + 1),
      true,
    )

    same : merge plugs node left_pos right_pos ≡ (drop_header plugs node l (l + 1), true)
    same =
        ap
          (λ c.
            if c
            then (node, false)
            else merge_fetched plugs node (fetch plugs node left_pos) (fetch plugs node right_pos))
          side_by_side
        ∙ ap₂ (merge_fetched plugs node) (fetch_known plugs node left_pos known_left)
            (fetch_known plugs node right_pos known_right)
        ∙ ap united no_merge
