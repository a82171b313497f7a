-- ===== src/Node/Modify.antt =====
-- node40_modify, _trunc, _remove and _merge: what changes the items of one node.
use reiser4progs.Prelude.{
  ℕ, zero, suc, ◌+◌, ◌-◌, ◌%◌, Bool, true, false, Option, none, some, List, [], ◌∷◌, ◌==◌,
  if◌then◌else◌, ◌||◌, not, ltb, leb, u32_mod, u16_mod, update, memmove,
}
use reiser4progs.Node.{Node, Pos, max_uint32, sub16, add16, ih_size, mkdirty}
use reiser4progs.Node.Space.{expand, shrink, size}
use reiser4progs.Node.Place.{Place, TransHint, Effect, Method, ItemPlugs, fetch, put_key, put_bytes}

-- The item header of a new item.
abbrev pub put_item : Node → ℕ → ℕ → List ℕ → Node
put_item node item pid key = record node {
  ih = update node.ih item (record (node.ih item) { pid = pid % u16_mod; key = key });
}

-- What node40_remove leaves: the node, whether it succeeded, `*pos`, and the items whose layout it has
-- called.
pub record Removed : Type 0 where
  pub node : Node
  pub ok : Bool
  pub pos : Pos
  pub regions : List ℕ

-- The end of node40_modify, with what `modify_func` returned: new first units have a new key.
unfoldable pub modify_end : Node → Pos → List ℕ → Option ℕ → Node × Option ℕ
modify_end node pos key none = (node, none)
modify_end node pos key (some write) =
    (if pos.unit == 0 then put_key node pos.item key else node, some write)

-- node40_modify, once there is room: the fetched place, if any, goes to `modify_func`.
unfoldable pub modify_fetched : Node → Pos → TransHint → Method → Option Place → Node × Option ℕ
modify_fetched node pos hint modify_func none = (node, none)
modify_fetched node pos hint modify_func (some place) =
    let e = modify_func node place hint in
    modify_end (put_bytes node e.bytes) pos e.place.key e.result

-- The node with its room, and with the header of a new item.
unfoldable pub make_room : Node → Pos → TransHint → Node
make_room node pos hint =
    let expanded = expand node pos ((hint.len + hint.overhead) % u32_mod) 1 in
    if pos.unit == max_uint32 then put_item expanded pos.item hint.plug hint.key else expanded

-- What is left to do in node40_trunc when the item has been truncated.
unfoldable pub trunc_shrink : Node → Effect → ℕ → Node
trunc_shrink node e count =
    let len = (e.hint.overhead + e.hint.len) % u32_mod in
    let item = e.place.pos.item in
    if len == 0
    then put_key node item e.place.key
    else if leb e.place.len len
    then shrink node (record { item = item; unit = max_uint32 }) e.place.len 1
    else put_key (shrink node (record { item = item; unit = 0 }) len (count % u32_mod)) item
        e.place.key

unfoldable pub trunc_end : Node → Effect → Option ℕ → Node × Option ℕ
trunc_end node e none = (node, none)
trunc_end node e (some count) = (trunc_shrink node e count, some count)

module _ (plugs : ItemPlugs) where
  -- node40_modify with insert_units or write_units as `modify_func`: the node, and the units written.
  -- A node with an error is a node that has been expanded.
  unfoldable pub modify : Node → Pos → TransHint → Method → Node × Option ℕ
  modify node pos hint modify_func =
      let node' = make_room node pos hint in
      modify_fetched node' pos hint modify_func (fetch plugs node' pos)

  unfoldable pub trunc_fetched : Node → TransHint → Option Place → Node × Option ℕ
  trunc_fetched node hint none = (node, none)
  trunc_fetched node hint (some place) =
      let e = plugs.trunc_units place.plug node place hint in
      trunc_end (put_bytes node e.bytes) e e.result

  -- node40_trunc
  unfoldable pub trunc : Node → Pos → TransHint → Node × Option ℕ
  trunc node pos hint = trunc_fetched node hint (fetch plugs node pos)

  -- One round of the walk that lets go of the blocks of items.
  unfoldable pub layout_item : ℕ → Bool × List ℕ → Option Place → Bool × List ℕ
  layout_item item rest none = (false, [])
  layout_item item rest (some place) =
      if plugs.ptr_item place.plug || not (plugs.layout place.plug)
      then rest
      else (rest.0, item ∷ rest.1)

  -- The walk over `n` items from `item` on: whether each item has its plugin, and the items whose
  -- layout is called.
  unfoldable pub layouts : Node → ℕ → ℕ → Bool × List ℕ
  layouts node item zero = (true, [])
  layouts node item (suc n) =
      layout_item item (layouts node (item + 1) n)
        (fetch plugs node (record { item = item; unit = max_uint32 }))

  unfoldable pub walk_layouts : Node → ℕ → ℕ → Bool → Bool × List ℕ
  walk_layouts node item n false = (true, [])
  walk_layouts node item n true = layouts node item n

  -- node40_remove of whole items.
  unfoldable pub remove_items : Node → Pos → TransHint → Removed
  remove_items node pos hint =
      let count = hint.count % u32_mod in
      let walk = walk_layouts node pos.item count hint.regions in
      record {
        node = if walk.0 then shrink node pos (size node pos count) count else node;
        ok = walk.0;
        pos = pos;
        regions = walk.1;
      }

  -- What node40_remove does once the units are gone from the body: the item goes too when it is empty.
  unfoldable pub remove_shrink : Node → Pos → ℕ → Effect → Removed
  remove_shrink node pos units e =
      let len = (e.hint.len + e.hint.overhead) % u32_mod in
      let whole : Pos = record { item = pos.item; unit = max_uint32 } in
      let keyed = if pos.unit == 0 then put_key node pos.item e.place.key else node in
      if leb e.place.len len || units == e.hint.count
      then record { node = shrink node whole e.place.len 1; ok = true; pos = whole; regions = [] }
      else record { node = shrink keyed pos len 1; ok = true; pos = pos; regions = [] }

  -- The remove_units of the item, if its plugin has one.
  unfoldable pub units_effect : Node → Place → TransHint → Option Method → Effect
  units_effect node place hint none = record {
    bytes = node.bytes;
    place = place;
    hint = hint;
    result = some 0;
  }
  units_effect node place hint (some remove) = remove node place hint

  unfoldable pub units_end : Node → Pos → ℕ → Effect → Option ℕ → Removed
  units_end node pos units e none = record { node = node; ok = false; pos = pos; regions = [] }
  units_end node pos units e (some done) = remove_shrink node pos units e

  -- node40_remove of units.
  unfoldable pub units_fetched : Node → Pos → TransHint → Option Place → Removed
  units_fetched node pos hint none = record { node = node; ok = false; pos = pos; regions = [] }
  units_fetched node pos hint (some place) =
      let e = units_effect node place hint (plugs.remove_units place.plug) in
      units_end (put_bytes node e.bytes) pos (plugs.units place.plug node place % u32_mod) e
        e.result

  unfoldable pub remove : Node → Pos → TransHint → Removed
  remove node pos hint =
      if pos.unit == max_uint32
      then remove_items node pos hint
      else units_fetched node pos hint (fetch plugs node pos)

  -- The second stage of node40_merge: the header of the right item goes.
  unfoldable pub drop_header : Node → ℕ → ℕ → Node
  drop_header node left right =
      let items = node.num_items in
      mkdirty (record node {
        ih =
            if ltb right (items - 1)
            then memmove node.ih (left + 1) (right + 1) (items - right - 1)
            else node.ih;
        num_items = sub16 items 1;
        free_space = add16 node.free_space (ih_size node.keypol);
      })

  -- The first stage of node40_merge, with the merge of the items' plugin, if it has one.
  unfoldable pub merge_bodies :
      Node → Place → Place → Option (Node → Place → Place → (ℕ → ℕ) × ℕ) → Node
  merge_bodies node left_place right_place none = node
  merge_bodies node left_place right_place (some func) =
      let r = func node left_place right_place in
      let node' = put_bytes node r.0 in
      if r.1 == 0
      then node'
      else shrink node' (record { item = right_place.pos.item; unit = 0 }) r.1 1

  unfoldable pub merge_fetched : Node → Option Place → Option Place → Node × Bool
  merge_fetched node none right = (node, false)
  merge_fetched node (some left) none = (node, false)
  merge_fetched node (some left) (some right) =
      let merged = merge_bodies node left right (plugs.merge left.plug) in
      (drop_header merged left.pos.item right.pos.item, true)

  -- node40_merge of two items side by side.
  unfoldable pub merge : Node → Pos → Pos → Node × Bool
  merge node left_pos right_pos =
      if ltb (left_pos.item + 1) right_pos.item || ltb (right_pos.item + 1) left_pos.item
      then (node, false)
      else merge_fetched node (fetch plugs node left_pos) (fetch plugs node right_pos)
