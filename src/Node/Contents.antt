-- ===== src/Node/Contents.antt =====
-- What a node holds: a list of items. The body of an item reaches from its offset to that of the next
-- one, the last body to the free space.
use reiser4progs.Prelude.{
  ℕ, zero, suc, ◌+◌, ◌-◌, ◌*◌, ◌≤◌, ◌<◌, ◌≡◌, ◌∙◌, ap, List, ◌⊎◌, inl, inr, Bool-cases, ◌==◌, ltb,
  if◌then◌else◌, u16_mod, tabulate, tabulate_ext, arith,
}
use reiser4progs.Node.{ItemHeader, Node, ih_size}

pub record Item : Type 0 where
  pub key : List ℕ
  pub flags : ℕ
  pub pid : ℕ
  pub body : List ℕ

-- Where the body of item `i` begins, and that of item `i - 1` ends.
unfoldable pub bound : Node → ℕ → ℕ
bound node i = if ltb i node.num_items then (node.ih i).offset else node.free_space_start

-- The item of a header and of a range of bytes.
unfoldable pub item_of : ItemHeader → (ℕ → ℕ) → ℕ → ℕ → Item
item_of h bytes from to = record {
  key = h.key;
  flags = h.flags;
  pid = h.pid;
  body = tabulate (to - from) (λ k. bytes (from + k));
}

unfoldable pub item_at : Node → ℕ → Item
item_at node i = item_of (node.ih i) node.bytes (bound node i) (bound node (i + 1))

unfoldable pub items_of : Node → List Item
items_of node = tabulate node.num_items (item_at node)

-- The bodies lie one behind the other, and the free space is what bodies and headers leave.
pub record IsValid (node : Node) : Type 0 where
  pub ordered : (i : ℕ) → i < node.num_items → bound node i ≤ bound node (i + 1)
  pub fits :
      node.free_space_start + node.free_space + node.num_items * ih_size node.keypol
      ≡ node.block_size
  pub small : node.block_size < u16_mod

pub bound_end : (node : Node) (i : ℕ) → node.num_items ≤ i → bound node i ≡ node.free_space_start
unfolding bound
bound_end node i h = ground arith

pub bound_item : (node : Node) (i : ℕ) → i < node.num_items → bound node i ≡ (node.ih i).offset
unfolding bound
bound_item node i h = ground arith

pub bound_le : {node : Node} → IsValid node → (d i : ℕ) → bound node i ≤ bound node (i + d)
bound_le {node} v zero i = omega (arith, ap (bound node) {x = i + 0} {y = i} (omega arith))
bound_le {node} v (suc d) i = elim (less i) [
  | inl lt ↦ omega (
    arith,
    v.ordered i lt,
    bound_le v d (i + 1),
    ap (bound node) {x = i + suc d} {y = i + 1 + d} (omega arith),
  )
  | inr ge ↦ omega (arith, bound_end node i ge, bound_end node (i + suc d) (omega arith))
]
  where
    less : (i : ℕ) → (i < node.num_items) ⊎ (node.num_items ≤ i)
    less i = ground arith

-- Bodies do not reach beyond the free space.
pub bound_top : {node : Node} → IsValid node → (i : ℕ) → bound node i ≤ node.free_space_start
bound_top {node} v i = omega (
  arith,
  bound_le v (node.num_items + i) i,
  bound_end node (i + (node.num_items + i)) (omega arith),
)

pub item_of_ext :
    (g h : ItemHeader) (bytes bytes' : ℕ → ℕ) (from to from' to' : ℕ)
    → h.key ≡ g.key
    → h.flags ≡ g.flags
    → h.pid ≡ g.pid
    → to' - from' ≡ to - from
    → ((k : ℕ) → k < to - from → bytes' (from' + k) ≡ bytes (from + k))
    → item_of h bytes' from' to' ≡ item_of g bytes from to
unfolding item_of
item_of_ext g h bytes bytes' from to from' to' ek ef ep el eb =
    let body =
      ap (λ n. tabulate n (λ k. bytes' (from' + k))) el
      ∙ tabulate_ext (to - from) (λ k. bytes' (from' + k)) (λ k. bytes (from + k)) eb in
    λ i. record { key = ek i; flags = ef i; pid = ep i; body = body i }

pub headers_le : (n pol : ℕ) → n * 30 ≤ n * ih_size pol
headers_le n pol = elim (Bool-cases (pol == 3)) [
  | inl e ↦ rw e (omega arith)
  | inr e ↦ rw e (omega arith)
]

-- The numbers of a valid node fit their fields.
pub valid_bounds :
    {node : Node}
    → IsValid node
    → (node.num_items < u16_mod) × (node.free_space_start < u16_mod) × (node.free_space < u16_mod)
valid_bounds {node} v = omega (arith, v.fits, v.small, headers_le node.num_items node.keypol)

pub headers_add : (n c s : ℕ) → (n + c) * s ≡ n * s + c * s
headers_add n c s = grind arith

pub bound_mono : {node : Node} → IsValid node → (i j : ℕ) → i ≤ j → bound node i ≤ bound node j
bound_mono {node} v i j h =
    omega (arith, bound_le v (j - i) i, ap (bound node) {x = i + (j - i)} {y = j} (omega arith))

pub ih_size_le : (pol : ℕ) → ih_size pol ≤ 38
ih_size_le pol = elim (Bool-cases (pol == 3)) [
  | inl e ↦ rw e (omega arith)
  | inr e ↦ rw e (omega arith)
]
