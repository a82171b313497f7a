-- ===== src/Node/Lookup.antt =====
-- node40_lookup: binary search over the keys of the item headers.
use reiser4progs.Prelude.{
  Option, none, some, ℕ, ◌≤◌, ◌<◌, ◌≡◌, ◌∙◌, sym, Bool, true, false, List, [], ◌∷◌, arith, u16_mod,
}
use reiser4progs.Aux.Search.{
  Comparison, less, equal, greater, IsOrdered, bin_search, bin_search-Located, Located,
}
use reiser4progs.Key.{comp_el}
use reiser4progs.Key.Large.{KeyLarge, compraw, compfull}
use reiser4progs.Key.Large.Generic.{IsWords, number, compfull_lem}
use reiser4progs.Node.{Node, Pos}

-- cb_comp_key3 and cb_comp_key4: the key of an item against the key that is looked for, by the compraw
-- of the latter's plugin.
unfoldable pub comp_key : Node → (List ℕ → Comparison) → ℕ → Comparison
comp_key node compare pos = compare (node.ih pos).key

-- Whether the key is there, and the position with its new item; a search that does not end has no
-- result.
unfoldable pub lookup : Node → (List ℕ → Comparison) → Pos → Option (Bool × Pos)
unfolding comp_key
lookup node compare pos = elim (bin_search (comp_key node compare) node.num_items) [
  | none ↦ none
  | some (found, item) ↦ some (found, record pos { item = item })
]

-- The words of a body as a large key.
unfoldable pub key_of : List ℕ → KeyLarge
key_of [] = record { el0 = 0; el1 = 0; el2 = 0; el3 = 0 }
key_of (a ∷ []) = record { el0 = a; el1 = 0; el2 = 0; el3 = 0 }
key_of (a ∷ b ∷ []) = record { el0 = a; el1 = b; el2 = 0; el3 = 0 }
key_of (a ∷ b ∷ c ∷ []) = record { el0 = a; el1 = b; el2 = c; el3 = 0 }
key_of (a ∷ b ∷ c ∷ d ∷ rest) = record { el0 = a; el1 = b; el2 = c; el3 = d }

-- The comparison with a large key.
unfoldable pub compare_with : KeyLarge → List ℕ → Comparison
compare_with key words = compraw (key_of words) key

-- The key of an item as a number.
abbrev pub key_number : Node → ℕ → ℕ
key_number node i = number (key_of (node.ih i).key)

-- The keys are words, in order, and their number fits into the field of the header.
pub record IsKeyed (node : Node) : Type 0 where
  pub words : (i : ℕ) → i < node.num_items → IsWords (key_of (node.ih i).key)
  pub few : node.num_items < u16_mod
  pub sorted : (i j : ℕ) → i ≤ j → j < node.num_items → key_number node i ≤ key_number node j

-- The search ends. A hit is an item with the key; a miss is the place where an item with the key would keep the order.
pub Placed : Node → KeyLarge → Option (Bool × Pos) → Type 0
Placed node key none = ⊥
Placed node key (some (true, pos)) =
    (pos.item < node.num_items) × (key_number node pos.item ≡ number key)
Placed node key (some (false, pos)) =
    (pos.item ≤ node.num_items)
    × ((i : ℕ) → i < pos.item → key_number node i < number key)
    × ((i : ℕ) → pos.item ≤ i → i < node.num_items → number key < key_number node i)

comp_key_lem :
    (node : Node) (key : KeyLarge) (i : ℕ)
    → IsKeyed node
    → IsWords key
    → i < node.num_items
    → comp_key node (compare_with key) i ≡ comp_el (key_number node i) (number key)
unfolding comp_key compare_with compfull
comp_key_lem node key i keyed words lt =
    compfull_lem (key_of (node.ih i).key) key (keyed.words i lt) words

comp_el-less : (a b : ℕ) → comp_el a b ≡ less → a < b
unfolding comp_el
comp_el-less a b e = ground arith

comp_el-greater : (a b : ℕ) → comp_el a b ≡ greater → b < a
unfolding comp_el
comp_el-greater a b e = ground arith

comp_el-equal : (a b : ℕ) → comp_el a b ≡ equal → a ≡ b
unfolding comp_el
comp_el-equal a b e = ground arith

less-comp_el : (a b : ℕ) → a < b → comp_el a b ≡ less
unfolding comp_el
less-comp_el a b lt = ground arith

greater-comp_el : (a b : ℕ) → b < a → comp_el a b ≡ greater
unfolding comp_el
greater-comp_el a b lt = ground arith

module _ (node : Node) (key : KeyLarge) (keyed : IsKeyed node) (words : IsWords key) where
  abbrev comp : ℕ → Comparison
  comp = comp_key node (compare_with key)

  is_less : (i : ℕ) → i < node.num_items → comp i ≡ less → key_number node i < number key
  is_less i lt e = comp_el-less _ _ (sym (comp_key_lem node key i keyed words lt) ∙ e)

  is_greater : (i : ℕ) → i < node.num_items → comp i ≡ greater → number key < key_number node i
  is_greater i lt e = comp_el-greater _ _ (sym (comp_key_lem node key i keyed words lt) ∙ e)

  ordered : IsOrdered comp node.num_items
  ordered = record {
    down = λ i j le top e.
        comp_key_lem node key i keyed words (omega arith)
        ∙ less-comp_el _ _ (omega (arith, is_less j top e, keyed.sorted i j le top));
    up = λ i j le top e.
        comp_key_lem node key j keyed words top
        ∙ greater-comp_el _ _
            (omega (arith, is_greater i (omega arith) e, keyed.sorted i j le top));
  }

  placed :
      (pos : Pos) (result : Option (Bool × ℕ))
      → Located comp node.num_items result
      → Placed node key (elim result [
        | none ↦ none
        | some (found, item) ↦ some (found, record pos { item = item })
      ])
  unfolding Placed
  placed pos none l = l
  placed pos (some (true, item)) l =
      (l.0, comp_el-equal _ _ (sym (comp_key_lem node key item keyed words l.0) ∙ l.1))
  placed pos (some (false, item)) l = (
    l.0,
    λ i lt. is_less i (omega (arith, l.0)) (l.1 i lt),
    λ i le lt. is_greater i lt (l.2 i le lt),
  )

  -- In a node whose items, fewer than 2 ^ 16, have large keys of 64-bit elements in ascending
  -- order, node40_lookup ends, says whether an item has the key, and gives such an item, or
  -- else the position that has all smaller keys in front of it and all greater ones behind.
  pub lookup-Placed : (pos : Pos) → Placed node key (lookup node (compare_with key) pos)
  unfolding lookup
  lookup-Placed pos =
      placed pos (bin_search comp node.num_items)
        (bin_search-Located comp node.num_items ordered (omega (arith, keyed.few)))
