-- ===== src/Node/Tests.antt =====
-- Runs and witnesses of plugin/node, on two small nodes with short keys.
use reiser4progs.Prelude.{
  ℕ, zero, suc, ◌+◌, ◌-◌, set, ◌≤◌, ◌<◌, ◌≡◌, refl, true, false, inl, inr, none, some, List, [],
  ◌∷◌, ◌++◌, take, drop, get_or, bytes_of, ◌==◌, if◌then◌else◌, arith, memcpy, memcpy_before,
  memcpy_behind, tabulate,
}
use reiser4progs.Node.{ItemHeader, Node, Pos, max_uint32}
use reiser4progs.Node.Contents.{items_of, bound, IsValid}
use reiser4progs.Node.Space.{expand, inc_offsets, copy, shrink}
use reiser4progs.Node.Shift.{Control, ShiftHint, predict, move, move_items}
use reiser4progs.Node.Predict.{Predicted, predict-Predicted}
use reiser4progs.Node.Move.{MovesTo, move-MovesTo}
use reiser4progs.Node.Place.{Place, place_of, fetch, border, TransHint, Method, ItemPlugs}
use reiser4progs.Node.Modify.{merge, modify, trunc, remove, units_effect}
use reiser4progs.Node.Insert.{IsConfined, WritesBody, new_item_node, Inserted, modify-Inserted}
use reiser4progs.Node.Splice.{span}
use reiser4progs.Node.Changed.{Changed}
use reiser4progs.Node.Units.{modify-Changed}
use reiser4progs.Node.Trunc.{KeepsPlace, Truncated, trunc-Truncated}
use reiser4progs.Node.Remove.{Lost, remove_method, remove-items, remove-Lost}
use reiser4progs.Node.Unite.{UnitsShifted, unite_expand, ShiftPlugs, shift}
use reiser4progs.Aux.Search.{bin_search, search_loop, le_int, half_int}
use reiser4progs.Key.{comp_el, first_of}
use reiser4progs.Key.Large.{KeyLarge, compraw}
use reiser4progs.Key.Large.Generic.{IsWords}
use reiser4progs.Node.Lookup.{
  lookup, compare_with, key_of, key_number, IsKeyed, Placed, lookup-Placed,
}
use reiser4progs.Node.Greedy.{Greedy, predict-Greedy}
use reiser4progs.Node.Merge.{merged, merge-items}
use reiser4progs.Node.Passed.{Given, ShiftsUnits, shift_result, unite_expand-Changed}
use reiser4progs.Node.Neighbours.{Kept, shift-Kept}

abbrev header : List ℕ → ℕ → ItemHeader
header key offset = record { key = key; offset = offset; flags = 0; pid = 1 }

-- Two items, of four and of three bytes.
abbrev two : Node
two = record {
  pid = 0;
  num_items = 2;
  free_space = 417;
  free_space_start = 35;
  magic = 0x52344653;
  mkfs_id = 1;
  flush_id = 0;
  level = 1;
  ih = λ i. if i == 0 then header (1 ∷ 0 ∷ 0 ∷ []) 28 else header (2 ∷ 0 ∷ 0 ∷ []) 32;
  bytes = λ a. a;
  block_size = 512;
  keypol = 3;
  dirty = false;
  state = 0;
}

-- One item, of five bytes.
abbrev one : Node
one = record two {
  num_items = 1;
  free_space = 449;
  free_space_start = 33;
  ih = λ i. header (0 ∷ 0 ∷ 0 ∷ []) 28;
}

two_ordered : (i : ℕ) → i < 2 → bound two i ≤ bound two (i + 1)
unfolding bound
two_ordered i lt = ground arith

two_bounds : (bound two 0 ≡ 28) × (bound two 1 ≡ 32)
unfolding bound
two_bounds = (refl, refl)

two-IsValid : IsValid two
two-IsValid = record { ordered = two_ordered; fits = refl; small = omega arith }

one_ordered : (i : ℕ) → i < 1 → bound one i ≤ bound one (i + 1)
unfolding bound
one_ordered i lt = ground arith

one-IsValid : IsValid one
one-IsValid = record { ordered = one_ordered; fits = refl; small = omega arith }

abbrev at : ℕ → ℕ → Pos
at item unit = record { item = item; unit = unit }

abbrev left : Control
left = record {
  allow_left = true;
  allow_right = false;
  move_point = true;
  update_point = true;
  allow_merge = false;
}

abbrev nothing_yet : ShiftHint
nothing_yet = record {
  create = false;
  update = false;
  items_number = 0;
  units_number = 0;
  items_bytes = 0;
  units_bytes = 0;
  control = left;
  moved = false;
  pos = at 1 0;
}

abbrev all_bytes : Node → ℕ → List ℕ
all_bytes node n = tabulate n (λ k. node.bytes (28 + k))

predict-Predicted_example : Predicted two one left (predict two one (some 1) nothing_yet)
predict-Predicted_example =
    predict-Predicted two one (some 1) nothing_yet two-IsValid one-IsValid refl refl (omega arith)
      (λ e. absurd (ground (arith, e)))

-- Room for one of the two items.
abbrev one_narrow : Node
one_narrow = record one { free_space = 40; block_size = 103 }

abbrev no_point : ShiftHint
no_point = record nothing_yet { control = record left { update_point = false } }

predict-Greedy_example : Greedy two 30 true (predict two one_narrow none no_point)
predict-Greedy_example =
    predict-Greedy two one_narrow none no_point two-IsValid
      (record { no_point = refl; no_limit = refl }) refl refl

move-MovesTo_example : MovesTo left two one (move two one (some 1) nothing_yet)
move-MovesTo_example =
    move-MovesTo two one (some 1) nothing_yet two-IsValid one-IsValid refl refl
      (λ e. absurd (ground (arith, e)))

-- Both items fit into the left neighbour, the insert point in the second one stays.
moved_run :
    (move_items two one (record nothing_yet { items_number = 1; items_bytes = 4 })).1.num_items ≡ 2
unfolding move_items expand copy shrink
moved_run = refl

-- A method that fills the body of its item with one byte, and returns one unit.
abbrev fill : Method
fill node place hint = record {
  bytes = memcpy node.bytes place.body (λ k. 7) 0 place.len;
  place = place;
  hint = hint;
  result = some 1;
}

fill-IsConfined : IsConfined fill
unfolding IsConfined
fill-IsConfined node place hint a h = elim h [
  | inl front ↦ memcpy_before node.bytes (λ k. 7) place.body 0 place.len a front
  | inr rear ↦ memcpy_behind node.bytes (λ k. 7) place.body 0 place.len a rear
]

fill-KeepsPlace : KeepsPlace fill
unfolding KeepsPlace
fill-KeepsPlace node place hint = (refl, refl)

abbrev plugs : ItemPlugs
plugs = record {
  known = λ pid. pid == 1;
  init_off = λ pid node place. 0;
  has_units = λ pid. true;
  units = λ pid node place. 4;
  trunc_units = λ pid. fill;
  remove_units = λ pid. some fill;
  ptr_item = λ pid. false;
  layout = λ pid. true;
  merge = λ pid. none;
}

abbrev new_item : TransHint
new_item = record {
  overhead = 2;
  len = 3;
  count = 1;
  key = 1 ∷ 5 ∷ 0 ∷ [];
  plug = 1;
  regions = true;
}

-- nodeptr40_insert_units for a pointer to the block 300: eight bytes, of which the hint asks room for.
abbrev insert_pointer : Method
insert_pointer node place hint = record {
  bytes = memcpy node.bytes place.body (λ k. get_or (bytes_of 8 300) k 0) 0 8;
  place = place;
  hint = hint;
  result = some 1;
}

insert_pointer-WritesBody :
    (node : Node) (place : Place) (hint : TransHint)
    → 8 ≤ place.len
    → WritesBody node place (insert_pointer node place hint)
unfolding WritesBody
insert_pointer-WritesBody node place hint room a h = elim h [
  | inl front ↦ memcpy_before node.bytes (λ k. get_or (bytes_of 8 300) k 0) place.body 0 8 a front
  | inr rear ↦
      memcpy_behind node.bytes (λ k. get_or (bytes_of 8 300) k 0) place.body 0 8 a (omega arith)
]

abbrev pointer_item : TransHint
pointer_item = record new_item { overhead = 0; len = 8 }

-- The new item, and the grown one, have room for the pointer.
pointer_room :
    (8 ≤ (place_of plugs (new_item_node two 1 pointer_item) (at 1 max_uint32)).len)
    × (8 ≤ (place_of plugs (expand two (at 0 0) 8 1) (at 0 0)).len)
unfolding place_of expand inc_offsets
pointer_room = (omega arith, omega arith)

modify-Inserted_example :
    Inserted two
      (modify plugs two (at 1 max_uint32) pointer_item insert_pointer).0
      1
      8
      1
      (1 ∷ 5 ∷ 0 ∷ [])
modify-Inserted_example =
    modify-Inserted plugs two 1 pointer_item insert_pointer two-IsValid (omega arith) (omega arith)
      (omega arith) (omega arith) refl (insert_pointer-WritesBody _ _ _ pointer_room.0)

modify-Changed_example :
    Changed two
      (modify plugs two (at 0 0) pointer_item insert_pointer).0
      0
      (span two 0 1 + 8)
      (1 ∷ 0 ∷ 0 ∷ [])
unfolding place_of expand inc_offsets
modify-Changed_example =
    modify-Changed plugs two 0 0 pointer_item insert_pointer two-IsValid (omega arith) (omega arith)
      (omega arith) (omega arith) refl (insert_pointer-WritesBody _ _ _ pointer_room.1)

trunc-Truncated_example :
    let e = fill two (place_of plugs two (at 0 0)) new_item in
    Truncated two (trunc plugs two (at 0 0) new_item).0 0 e (some 1)
trunc-Truncated_example =
    trunc-Truncated plugs two 0 0 new_item two-IsValid (omega arith) refl fill-IsConfined
      fill-KeepsPlace

remove-items_example :
    let r = remove plugs two (at 0 max_uint32) new_item in
    (r.ok ≡ true)
    × IsValid r.node
    × (items_of r.node ≡ take 0 (items_of two) ++ drop 1 (items_of two))
remove-items_example =
    remove-items plugs two 0 new_item two-IsValid (omega arith) (omega arith)
      (λ i from to. known i to)
  where
    known : (i : ℕ) → i < 0 + 1 → plugs.known (two.ih i).pid ≡ true
    known i to = ground arith

abbrev one_byte : TransHint
one_byte = record new_item { len = 1; overhead = 0 }

remove-IsConfined : IsConfined (remove_method plugs 1)
unfolding units_effect IsConfined
remove-IsConfined = fill-IsConfined

remove-KeepsPlace : KeepsPlace (remove_method plugs 1)
unfolding units_effect KeepsPlace
remove-KeepsPlace = fill-KeepsPlace

remove-Lost_example :
    let e = fill two (place_of plugs two (at 1 0)) one_byte in
    Lost two 1 0 4 e (remove plugs two (at 1 0) one_byte) (some 1)
unfolding place_of units_effect
remove-Lost_example =
    remove-Lost plugs two 1 0 one_byte two-IsValid (omega arith) (omega arith) refl
      remove-IsConfined remove-KeepsPlace

merge-items_example :
    let r = merge plugs two (at 0 0) (at 1 0) in
    (r.1 ≡ true)
    × IsValid r.0
    × (items_of r.0 ≡ take 0 (items_of two) ++ (merged two 0 ∷ []) ++ drop 2 (items_of two))
merge-items_example = merge-items plugs two 0 0 0 two-IsValid (omega arith) refl refl refl

-- tail40_shift_units to the left, for an item that is there: the units go to the end of the other body,
-- the rest of the source body moves to its head, and its key goes on by as many bytes.
abbrev tail_shift : Node → Place → Node → Place → ShiftHint → UnitsShifted
tail_shift src src_place dst dst_place hint =
    let n = hint.units_number in
    let pos = dst_place.len - dst_place.off - n in
    let head = src_place.body + src_place.off in
    record {
      src_bytes = memcpy src.bytes head src.bytes (head + n) (src_place.len - src_place.off - n);
      dst_bytes =
          memcpy dst.bytes (dst_place.body + pos + dst_place.off) src.bytes head hint.units_bytes;
      src_place = record src_place {
        key = set src_place.key 2 (get_or src_place.key 2 0 + hint.units_bytes);
      };
      dst_place = dst_place;
      hint = hint;
      ok = true;
    }

tail_shift-ShiftsUnits :
    (src dst : Node) (src_place dst_place : Place) (hint : ShiftHint)
    → hint.units_number ≡ hint.units_bytes
    → src_place.off + hint.units_number ≤ src_place.len
    → dst_place.off + hint.units_number ≤ dst_place.len
    → ShiftsUnits src dst src_place dst_place hint (tail_shift src src_place dst dst_place hint)
tail_shift-ShiftsUnits src dst src_place dst_place hint same gives takes = record {
  src_confined = λ a h. elim h [
    | inl front ↦ memcpy_before src.bytes src.bytes head (head + n) left_over a (omega arith)
    | inr rear ↦ memcpy_behind src.bytes src.bytes head (head + n) left_over a (omega arith)
  ];
  dst_confined = λ a h. elim h [
    | inl front ↦ memcpy_before dst.bytes src.bytes there head hint.units_bytes a (omega arith)
    | inr rear ↦ memcpy_behind dst.bytes src.bytes there head hint.units_bytes a (omega arith)
  ];
  keeps = (refl, refl, refl, refl);
}
  where
    n : ℕ
    n = hint.units_number

    head : ℕ
    head = src_place.body + src_place.off

    left_over : ℕ
    left_over = src_place.len - src_place.off - n

    there : ℕ
    there = dst_place.body + (dst_place.len - dst_place.off - n) + dst_place.off

abbrev shift_plugs : ShiftPlugs
shift_plugs = record {
  items = plugs;
  has_shift = λ pid. true;
  mergeable = λ src src_place dst dst_place. false;
  prep_shift = λ pid src src_place dst dst_place hint. some hint;
  shift_units = λ pid. tail_shift;
  maxreal_key = λ pid src place. place.key;
  next_offset = λ key. key;
}

shift-Kept_example : Kept true two one (shift shift_plugs two one nothing_yet)
unfolding border fetch
shift-Kept_example =
    shift-Kept shift_plugs two one nothing_yet (place_of plugs two (at 0 max_uint32))
      (place_of plugs one (at 0 max_uint32)) two-IsValid one-IsValid refl refl refl refl refl refl
      refl refl refl

-- Three of four units.
abbrev three_units : ShiftHint
three_units = record nothing_yet { units_number = 3; units_bytes = 3 }

unite_expand-Changed_example :
    let r = shift_result shift_plugs two one 0 0 0 three_units in
    let after =
      unite_expand shift_plugs two one three_units (place_of plugs two (at 0 0)) (at 0 0) in
    Given two after.src 0 4 r × Changed one after.dst 0 (span one 0 1 + 3) (0 ∷ 0 ∷ 0 ∷ [])
unfolding place_of expand inc_offsets
unite_expand-Changed_example =
    unite_expand-Changed shift_plugs two one 0 0 0 three_units two-IsValid one-IsValid (omega arith)
      (omega arith) refl (omega arith) (omega arith) fits refl
      (tail_shift-ShiftsUnits _ _ _ _ _ refl (omega arith) (omega arith)) refl
  where
    fits : 3 ≤ span two 0 1
    fits = omega (arith, two_bounds)

-- A node with large keys.
abbrev large_headers : ℕ → ItemHeader
large_headers zero = header (1 ∷ 0 ∷ 0 ∷ 9 ∷ []) 28
large_headers (suc i) = header (1 ∷ 0 ∷ 3 ∷ 0 ∷ []) 32

abbrev large : Node
large = record two { keypol = 4; free_space = 401; ih = large_headers }

abbrev needle : KeyLarge
needle = record { el0 = 1; el1 = 0; el2 = 2; el3 = 0 }

large-IsWords : (i : ℕ) → IsWords (key_of (large.ih i).key)
unfolding key_of
large-IsWords zero = record {
  word0 = omega arith;
  word1 = omega arith;
  word2 = omega arith;
  word3 = omega arith;
}
large-IsWords (suc i) = record {
  word0 = omega arith;
  word1 = omega arith;
  word2 = omega arith;
  word3 = omega arith;
}

large_sorted : (i j : ℕ) → i ≤ j → key_number large i ≤ key_number large j
unfolding key_of
large_sorted zero zero le = omega arith
large_sorted zero (suc j) le = omega arith
large_sorted (suc i) zero le = absurd (omega arith)
large_sorted (suc i) (suc j) le = omega arith

large-IsKeyed : IsKeyed large
large-IsKeyed = record {
  words = λ i lt. large-IsWords i;
  few = omega arith;
  sorted = λ i j le lt. large_sorted i j le;
}

lookup-Placed_example : Placed large needle (lookup large (compare_with needle) (at 5 0))
lookup-Placed_example =
    lookup-Placed large needle large-IsKeyed
      (record {
        word0 = omega arith;
        word1 = omega arith;
        word2 = omega arith;
        word3 = omega arith;
      })
      (at 5 0)

lookup_run : lookup large (compare_with needle) (at 5 0) ≡ some (false, at 1 0)
unfolding lookup compare_with key_of bin_search compraw search_loop le_int half_int comp_el first_of
lookup_run = refl
