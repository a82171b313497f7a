-- ===== src/Node/Place.antt =====
-- node40_fetch and node40_border: an item as the item plugins see it, and what a node calls of them. A
-- plugin works on the body in the block of the node, so its methods return the new bytes.
use reiser4progs.Prelude.{
  ℕ, ◌≡◌, ◌-◌, Bool, true, Option, none, some, List, ◌==◌, if◌then◌else◌, update,
}
use reiser4progs.Node.{Node, Pos, max_uint32}
use reiser4progs.Node.Space.{len_by_ih}

-- reiser4_place_t, without its node.
pub record Place : Type 0 where
  pub pos : Pos
  pub body : ℕ
  pub len : ℕ
  pub off : ℕ
  pub key : List ℕ
  pub plug : ℕ

-- trans_hint_t, as far as the nodes read it; `len` is the int32_t as a uint32_t, `regions` says that
-- there is a region_func, and `key` is the body of `offset`.
pub record TransHint : Type 0 where
  pub overhead : ℕ
  pub len : ℕ
  pub count : ℕ
  pub key : List ℕ
  pub plug : ℕ
  pub regions : Bool

-- What a method of an item leaves: the bytes of the block, its place, the hint, and what it returns,
-- or none for an error.
pub record Effect : Type 0 where
  pub bytes : ℕ → ℕ
  pub place : Place
  pub hint : TransHint
  pub result : Option ℕ

abbrev pub Method : Type 0
Method = Node → Place → TransHint → Effect

-- The item plugins: which ids there are, and for each the methods that node40 calls. Of a method that
-- node40 tests before it calls it there is none, or a Boolean beside it.
pub record ItemPlugs : Type 0 where
  pub known : ℕ → Bool
  pub init_off : ℕ → Node → Place → ℕ
  pub has_units : ℕ → Bool
  pub units : ℕ → Node → Place → ℕ
  pub trunc_units : ℕ → Method
  pub remove_units : ℕ → Option Method
  pub ptr_item : ℕ → Bool
  pub layout : ℕ → Bool
  pub merge : ℕ → Option (Node → Place → Place → (ℕ → ℕ) × ℕ)

-- The place that node40_fetch fills in.
unfoldable pub place_of : ItemPlugs → Node → Pos → Place
unfolding len_by_ih
place_of plugs node pos =
    let ih = node.ih pos.item in
    let place : Place = record {
      pos = pos;
      body = ih.offset;
      len = len_by_ih node pos node.num_items;
      off = 0;
      key = ih.key;
      plug = ih.pid;
    } in
    record place { off = plugs.init_off ih.pid node place }

-- node40_fetch, which fails for an item without a plugin.
unfoldable pub fetch : ItemPlugs → Node → Pos → Option Place
fetch plugs node pos =
    if plugs.known (node.ih pos.item).pid then some (place_of plugs node pos) else none

pub fetch_known :
    (plugs : ItemPlugs) (node : Node) (pos : Pos)
    → plugs.known (node.ih pos.item).pid ≡ true
    → fetch plugs node pos ≡ some (place_of plugs node pos)
unfolding fetch
fetch_known plugs node pos known = rw known

-- node40_border: the first or the last item.
unfoldable pub border : ItemPlugs → Node → Bool → Option Place
border plugs node left_border =
    if node.num_items == 0
    then none
    else fetch plugs node
        (record { item = if left_border then 0 else node.num_items - 1; unit = max_uint32 })

-- aal_memcpy of a key to the head of an item header.
abbrev pub put_key : Node → ℕ → List ℕ → Node
put_key node item key = record node {
  ih = update node.ih item (record (node.ih item) { key = key });
}

abbrev pub put_bytes : Node → (ℕ → ℕ) → Node
put_bytes node bytes = record node { bytes = bytes }
