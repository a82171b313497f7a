-- ===== src/Node/Shift.antt =====
-- node40_predict and node40_move: whole items from a node to its neighbour.
use reiser4progs.Prelude.{
  ℕ, zero, suc, ◌+◌, ◌-◌, ◌%◌, Bool, true, false, not, ltb, leb, ◌==◌, if◌then◌else◌, ◌&&◌, ◌||◌,
  Option, none, some, u32_mod,
}
use reiser4progs.Node.{Node, Pos, max_uint32, sub32, ih_size}
use reiser4progs.Node.Space.{expand, copy, shrink}

-- The flags of `control` that the nodes look at, enum shift_flags.
pub record Control : Type 0 where
  pub allow_left : Bool
  pub allow_right : Bool
  pub move_point : Bool
  pub update_point : Bool
  pub allow_merge : Bool

-- shift_hint_t; of `result` there is the flag SF_MOVE_POINT.
pub record ShiftHint : Type 0 where
  pub create : Bool
  pub update : Bool
  pub items_number : ℕ
  pub units_number : ℕ
  pub items_bytes : ℕ
  pub units_bytes : ℕ
  pub control : Control
  pub moved : Bool
  pub pos : Pos

-- Goes on, leaves the loop, or fails.
pub data Walk : Type 0 where
  goes : ShiftHint → Walk
  breaks : ShiftHint → Walk
  fails : Walk

-- The insert point lies in the neighbour node now.
abbrev pub move_point_to : ShiftHint → ℕ → ShiftHint
move_point_to hint item = record hint {
  moved = true;
  pos = record { item = item; unit = hint.pos.unit };
}

-- The insert point, when the first of the source's items goes to the left. `units` is the number of
-- units of the first item of the source, if the node has the item and its plugin counts them.
unfoldable pub update_left : Option ℕ → ℕ → ShiftHint → Walk
update_left units dst_items hint =
    if hint.pos.item == 0
    then elim units [
      | none ↦ fails
      | some n ↦
          if hint.control.move_point
            && (hint.pos.unit == max_uint32 || leb (sub32 n 1) hint.pos.unit)
          then goes (move_point_to hint dst_items)
          else breaks hint
    ]
    else goes (record hint { pos = record { item = hint.pos.item - 1; unit = hint.pos.unit } })

-- The insert point, when the last of `src_items` items goes to the right.
unfoldable pub update_right : ℕ → ShiftHint → Walk
update_right src_items hint =
    if leb (src_items - 1) hint.pos.item
    then if hint.pos.item == src_items - 1
      then if hint.control.move_point && (hint.pos.unit == max_uint32 || hint.pos.unit == 0)
        then goes (move_point_to hint 0)
        else if not (hint.pos.unit == max_uint32)
        then breaks hint
        else goes hint
      else if hint.control.move_point
      then breaks (move_point_to hint 0)
      else breaks hint
    else goes hint

unfoldable pub update_point : Option ℕ → ℕ → ℕ → ShiftHint → Walk
unfolding update_left update_right
update_point units src_items dst_items hint =
    if hint.control.update_point
    then if hint.control.allow_left
      then update_left units dst_items hint
      else update_right src_items hint
    else goes hint

-- The length of the item that the loop looks at.
unfoldable pub item_len : Node → ℕ → ℕ
item_len src cur =
    if cur == src.num_items - 1
    then sub32 src.free_space_start (src.ih cur).offset
    else sub32 (src.ih (cur + 1)).offset (src.ih cur).offset

-- The space that is left when the loop ends is for units.
unfoldable pub after_walk : Walk → ℕ → (ShiftHint → Option ShiftHint) → Option ShiftHint
after_walk (goes h) space next = next h
after_walk (breaks h) space next = some (record h { units_bytes = space })
after_walk fails space next = none

-- The loop of node40_predict with as many items left as the number says.
unfoldable pub predict_loop : Node → ℕ → Option ℕ → ℕ → ℕ → ℕ → ℕ → ShiftHint → Option ShiftHint
unfolding update_point item_len after_walk
predict_loop src overhead units zero cur dst_items space hint =
    some (record hint { units_bytes = space })
predict_loop src overhead units (suc n) cur dst_items space hint =
    let len = item_len src cur in
    let stop =
      hint.moved
      || not hint.control.move_point && hint.control.allow_right && leb (suc n) hint.pos.item
      || ltb space ((len + overhead) % u32_mod) in
    elim stop [
      | true ↦ some (record hint { units_bytes = space })
      | false ↦ after_walk (update_point units (suc n) dst_items hint) space (λ h.
          predict_loop src overhead units n (if hint.control.allow_left then cur + 1 else cur - 1)
            ((dst_items + 1) % u32_mod) (space - (len + overhead) % u32_mod)
            (record h {
              items_number = (h.items_number + 1) % u32_mod;
              items_bytes = (h.items_bytes + len) % u32_mod;
            }))
    ]

unfoldable pub predict : Node → Node → Option ℕ → ShiftHint → Option ShiftHint
unfolding predict_loop
predict src dst units hint =
    if src.num_items == 0
    then some hint
    else predict_loop src (ih_size dst.keypol) units src.num_items
        (if hint.control.allow_left then 0 else src.num_items - 1) dst.num_items dst.free_space hint

-- node40_expand, node40_copy and node40_shrink of the predicted items: the source and its neighbour.
unfoldable pub move_items : Node → Node → ShiftHint → Node × Node
move_items src dst hint =
    let count = hint.items_number in
    let dst_pos : Pos = record {
      item = if hint.control.allow_left then dst.num_items else 0;
      unit = max_uint32;
    } in
    let src_pos : Pos = record {
      item = if hint.control.allow_left then 0 else sub32 src.num_items count;
      unit = max_uint32;
    } in
    (
      shrink src src_pos hint.items_bytes count,
      copy (expand dst dst_pos hint.items_bytes count) dst_pos src src_pos count,
    )

-- What node40_move does with a prediction; nothing for no items, or for empty ones.
unfoldable pub move_predicted : Node → Node → Option ShiftHint → Option (Node × Node × ShiftHint)
unfolding move_items
move_predicted src dst none = none
move_predicted src dst (some h) =
    if h.items_number == 0 || h.items_bytes == 0
    then some (src, dst, h)
    else let nodes = move_items src dst h in some (nodes.0, nodes.1, record h { update = true })

unfoldable pub move : Node → Node → Option ℕ → ShiftHint → Option (Node × Node × ShiftHint)
unfolding predict move_predicted
move src dst units hint = move_predicted src dst (predict src dst units hint)
