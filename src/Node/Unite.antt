-- ===== src/Node/Unite.antt =====
-- node40_unite and node40_shift: units and whole items go from a node to its neighbour.
use reiser4progs.Prelude.{
  ℕ, ◌-◌, ◌%◌, Bool, true, false, Option, none, some, List, ◌==◌, if◌then◌else◌, ◌&&◌, ◌||◌, not,
  ltb, leb, u32_mod, u16_mod, update,
}
use reiser4progs.Node.{Node, Pos, ih_size, sub32, max_uint32, get_flags}
use reiser4progs.Node.Space.{expand, shrink}
use reiser4progs.Node.Place.{Place, ItemPlugs, fetch, border, put_key, put_bytes}
use reiser4progs.Node.Shift.{ShiftHint, move}

-- What shift_units leaves of both blocks, of both places, and of the hint.
pub record UnitsShifted : Type 0 where
  pub src_bytes : ℕ → ℕ
  pub dst_bytes : ℕ → ℕ
  pub src_place : Place
  pub dst_place : Place
  pub hint : ShiftHint
  pub ok : Bool

-- The methods of the items that node40_unite calls, and of their keys: `next_offset` sets the offset of
-- a key to the one behind it. prep_shift has no destination for an item that is not there yet.
pub record ShiftPlugs : Type 0 where
  pub items : ItemPlugs
  pub has_shift : ℕ → Bool
  pub mergeable : Node → Place → Node → Place → Bool
  pub prep_shift : ℕ → Node → Place → Node → Option Place → ShiftHint → Option ShiftHint
  pub shift_units : ℕ → Node → Place → Node → Place → ShiftHint → UnitsShifted
  pub maxreal_key : ℕ → Node → Place → List ℕ
  pub next_offset : List ℕ → List ℕ

-- Both nodes, the hint, and whether there was no error.
pub record Shifted : Type 0 where
  pub src : Node
  pub dst : Node
  pub hint : ShiftHint
  pub ok : Bool

abbrev pub done : Node → Node → ShiftHint → Shifted
done src dst hint = record { src = src; dst = dst; hint = hint; ok = true }

abbrev pub failed : Node → Node → ShiftHint → Shifted
failed src dst hint = record { src = src; dst = dst; hint = hint; ok = false }

-- The insert point, when the item it lies in goes, or one in front of it.
unfoldable pub source_removed : ShiftHint → ℕ → ShiftHint
source_removed hint item = record hint {
  pos = record {
    item = if not hint.moved && ltb item hint.pos.item then hint.pos.item - 1 else hint.pos.item;
    unit = if item == hint.pos.item then max_uint32 else hint.pos.unit;
  };
}

-- The end of node40_unite, for a source item that had `units` units: it shrinks, or goes when it is
-- empty.
unfoldable pub unite_end : Node → Node → ℕ → UnitsShifted → Shifted
unfolding source_removed
unite_end src dst units r =
    let src' = put_bytes src r.src_bytes in
    let dst' = put_bytes dst r.dst_bytes in
    let hint = record r.hint { update = true } in
    let item = r.src_place.pos.item in
    let left = hint.control.allow_left in
    let keyed = if left then dst' else put_key dst' r.dst_place.pos.item r.dst_place.key in
    if not r.ok
    then failed src' dst' r.hint
    else if hint.units_number == units
    then done (shrink src' (record { item = item; unit = max_uint32 }) r.src_place.len 1) keyed
        (source_removed hint item)
    else done
        (shrink (if left then put_key src' item r.src_place.key else src')
          (record { item = item; unit = 0 }) hint.units_bytes 1)
        keyed hint

-- The header of the new item, of the plugin, the key and the flags of the source item.
unfoldable pub created_item : Node → Place → Node → ℕ → Node
created_item src src_place dst item = record dst {
  ih = update dst.ih item (record (dst.ih item) {
    pid = src_place.plug % u16_mod;
    key = src_place.key;
    flags = get_flags src src_place.pos.item;
  });
}

module _ (plugs : ShiftPlugs) where
  unfoldable pub unite_shift : Node → Node → ShiftHint → Place → Option Place → Shifted
  unfolding unite_end
  unite_shift src dst hint src_place none = failed src dst hint
  unite_shift src dst hint src_place (some fetched) =
      let dst_place =
        if hint.create
        then record fetched {
          key = plugs.next_offset (plugs.maxreal_key src_place.plug src src_place);
        }
        else fetched in
      unite_end src dst (plugs.items.units src_place.plug src src_place % u32_mod)
        (plugs.shift_units src_place.plug src src_place dst dst_place hint)

  -- Room in the neighbour, with a new item at `pos` if the hint says so, and the shift into it.
  unfoldable pub unite_expand : Node → Node → ShiftHint → Place → Pos → Shifted
  unite_expand src dst hint src_place pos =
      let room = expand dst pos hint.units_bytes 1 in
      let dst' = if hint.create then created_item src src_place room pos.item else room in
      unite_shift src dst' hint src_place (fetch plugs.items dst' pos)

  -- What prep_shift has left of the hint; the insert point, if it moved, lies in `item` now.
  unfoldable pub unite_prepared : Node → Node → Place → Pos → Option ShiftHint → ShiftHint → Shifted
  unite_prepared src dst src_place pos none hint = failed src dst hint
  unite_prepared src dst src_place pos (some prepared) hint =
      let hint' =
        if prepared.control.update_point && prepared.moved
        then record prepared { pos = record { item = pos.item; unit = prepared.pos.unit } }
        else prepared in
      if hint'.units_number == 0
      then done src dst hint'
      else unite_expand src dst hint' src_place pos

  -- Into a new item of the neighbour, or into its border item `dst_place`.
  unfoldable pub unite_create : Node → Node → ShiftHint → Place → Shifted
  unite_create src dst hint src_place =
      let overhead = ih_size dst.keypol in
      let hint' = record hint { units_bytes = hint.units_bytes - overhead } in
      let pos : Pos = record {
        item = if hint.control.allow_left then dst.num_items else 0;
        unit = max_uint32;
      } in
      if leb hint.units_bytes overhead
      then done src dst hint
      else unite_prepared src dst src_place pos
          (plugs.prep_shift src_place.plug src src_place dst none hint') hint'

  unfoldable pub unite_existing : Node → Node → ShiftHint → Place → Place → Shifted
  unite_existing src dst hint src_place dst_place =
      let pos : Pos = record {
        item = if hint.control.allow_left then sub32 dst.num_items 1 else 0;
        unit = 0;
      } in
      unite_prepared src dst src_place pos
        (plugs.prep_shift src_place.plug src src_place dst (some dst_place) hint) hint

  -- The border item of the neighbour, if it has items: units go where the items have the same flags,
  -- and where they are mergeable or not, as `create` wants it.
  unfoldable pub unite_border : Node → Node → ShiftHint → Bool → Place → Option Place → Shifted
  unite_border src dst hint create src_place none = failed src dst hint
  unite_border src dst hint create src_place (some dst_place) =
      let mergeable =
        if hint.control.allow_left
        then plugs.mergeable dst dst_place src src_place
        else plugs.mergeable src src_place dst dst_place in
      let hint' = record hint { create = not mergeable } in
      if not (get_flags src src_place.pos.item == get_flags dst dst_place.pos.item)
      then done src dst hint
      else if not mergeable
      then if create then unite_create src dst hint' src_place else done src dst hint'
      else if create
      then done src dst hint'
      else unite_existing src dst hint' src_place dst_place

  -- node40_splittable
  unfoldable pub splittable : Node → Place → Bool
  splittable node place =
      plugs.has_shift place.plug
      && plugs.items.has_units place.plug
      && not (plugs.items.units place.plug node place == 0)

  unfoldable pub unite_source : Node → Node → ShiftHint → Bool → Option Place → Shifted
  unite_source src dst hint create none = failed src dst hint
  unite_source src dst hint create (some src_place) =
      let hint' = record hint { create = true } in
      if not (splittable src src_place)
      then done src dst hint
      else if dst.num_items == 0
      then if create then unite_create src dst hint' src_place else done src dst hint'
      else unite_border src dst hint create src_place
          (border plugs.items dst (not hint.control.allow_left))

  -- node40_unite
  unfoldable pub unite : Node → Node → ShiftHint → Bool → Shifted
  unite src dst hint create =
      let hint' = record hint { units_bytes = dst.free_space } in
      let left = hint.control.allow_left in
      if src.num_items == 0 || dst.free_space == 0
      then done src dst hint'
      else if hint.control.update_point
          && hint.pos.unit == max_uint32
          && (left && hint.pos.item == 0 || not left && hint.pos.item == src.num_items)
      then done src dst hint'
      else unite_source src dst hint' create (border plugs.items src left)

  -- The number of units of the first item, which node40_predict asks for.
  unfoldable pub units_of : Node → Option Place → Option ℕ
  units_of node none = none
  units_of node (some place) =
      if plugs.items.has_units place.plug
      then some (plugs.items.units place.plug node place % u32_mod)
      else none

  -- The third pass of node40_shift, and its end.
  unfoldable pub shift_end : Shifted → Shifted
  shift_end r = record r {
    hint =
        if r.hint.control.update_point && r.hint.moved && r.hint.units_number == 0 && r.hint.create
        then record r.hint { pos = record { item = r.hint.pos.item; unit = max_uint32 } }
        else r.hint;
  }

  unfoldable pub shift_united : Shifted → Shifted
  shift_united u = if u.ok then shift_end u else u

  unfoldable pub shift_third : Shifted → Shifted
  shift_third r =
      if r.hint.moved
      then r
      else if r.hint.control.allow_merge
      then shift_united (unite r.src r.dst r.hint true)
      else shift_end r

  -- The second pass, when the insert point is not in the neighbour yet.
  unfoldable pub shift_moved : Node → Node → ShiftHint → Option (Node × Node × ShiftHint) → Shifted
  shift_moved src dst hint none = failed src dst hint
  shift_moved src dst hint (some r) = shift_third (done r.0 r.1 r.2)

  unfoldable pub shift_second : Shifted → Shifted
  shift_second r =
      if not r.ok || r.hint.moved
      then r
      else shift_moved r.src r.dst r.hint (
          move r.src r.dst
            (units_of r.src (fetch plugs.items r.src (record { item = 0; unit = max_uint32 })))
            r.hint)

  -- Without merging, nodes whose border items are mergeable stay as they are.
  unfoldable pub shift_whole : Node → Node → ShiftHint → Option Place → Option Place → Shifted
  shift_whole src dst hint none dst_place = failed src dst hint
  shift_whole src dst hint (some src_place) none = failed src dst hint
  shift_whole src dst hint (some src_place) (some dst_place) =
      if plugs.mergeable src src_place dst dst_place
      then done src dst hint
      else shift_second (done src dst hint)

  -- node40_shift. The hint of a failed prediction is not kept.
  unfoldable pub shift : Node → Node → ShiftHint → Shifted
  shift src dst hint =
      let left = hint.control.allow_left in
      if hint.control.allow_merge
      then shift_second (unite src dst hint false)
      else shift_whole src dst hint (border plugs.items src left)
          (border plugs.items dst (not left))
