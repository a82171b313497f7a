-- ===== src/Node/Move.antt =====
-- node40_move: the items of both nodes together stay the same.
use reiser4progs.Prelude.{
  ◌&&◌, ℕ, ◌+◌, ◌-◌, ◌*◌, ◌≤◌, ◌<◌, ◌≡◌, refl, ◌∙◌, sym, ap, ap₂, inl, inr, Bool, true, false,
  Bool-cases, Option, none, some, ◌==◌, if◌then◌else◌, ◌||◌, arith, subst, List, ◌++◌, take, drop,
  take_all, drop_all, take-append-drop, append-nil, append_assoc, length, length-tabulate,
  length-drop,
}
use reiser4progs.Node.{Node, Pos, ih_size, sub32, max_uint32}
use reiser4progs.Node.Contents.{Item, items_of, item_at, IsValid, valid_bounds}
use reiser4progs.Node.Space.{expand, copy, shrink}
use reiser4progs.Node.Expand.{expand-Expanded}
use reiser4progs.Node.Splice.{span, Spliced, copy-Spliced}
use reiser4progs.Node.Shrink.{shrink-Cut}
use reiser4progs.Node.Shift.{Control, ShiftHint, predict, move_items, move_predicted, move}
use reiser4progs.Node.Predict.{first, Counted, Predicted, predict-Predicted}
use reiser4progs.Node.Spliced
use reiser4progs.Node.Remaining

pub length-items_of : (node : Node) → length (items_of node) ≡ node.num_items
unfolding items_of
length-items_of node = length-tabulate node.num_items (item_at node)

-- Expanding and copying of whole items is splicing.
pub expand-copy-Spliced :
    (dst : Node) (p : ℕ) (src : Node) (s count : ℕ)
    → IsValid dst
    → IsValid src
    → p ≤ dst.num_items
    → 0 < count
    → 0 < span src s count
    → s + count ≤ src.num_items
    → span src s count + count * ih_size dst.keypol ≤ dst.free_space
    → let pos : Pos = record { item = p; unit = max_uint32 } in
      Spliced dst
        (copy
          (expand dst pos (span src s count) count)
          pos
          src
          (record { item = s; unit = max_uint32 })
          count)
        p
        src
        s
        count
expand-copy-Spliced dst p src s count vd vs le pos_count pos_len top room =
    let e = expand-Expanded dst p (span src s count) count vd le pos_len pos_count room in
    copy-Spliced dst _ p src s count vd vs le pos_count top room e.0 e.1

-- The items in the order of the keys: the left neighbour first.
abbrev pub all_items : Bool → Node → Node → List Item
all_items left src dst = if left then items_of dst ++ items_of src else items_of src ++ items_of dst

-- Both nodes are valid, and together they have the items that the nodes before had.
pub record Moved (left : Bool) (src dst src' dst' : Node) : Type 0 where
  pub src_IsValid : IsValid src'
  pub dst_IsValid : IsValid dst'
  pub same_items : all_items left src' dst' ≡ all_items left src dst

all_left :
    (n k : ℕ) (xs ys : List Item)
    → length xs ≤ n
    → (take n xs ++ take k ys ++ drop n xs) ++ drop k ys ≡ xs ++ ys
all_left n k xs ys le = rw (
  take_all n xs le,
  drop_all n xs le,
  append-nil (xs ++ take k ys),
  append_assoc xs (take k ys) (drop k ys),
  take-append-drop k ys,
)

all_right :
    (m k : ℕ) (xs ys : List Item)
    → length ys ≤ m + k
    → (take m ys ++ drop (m + k) ys) ++ (take k (drop m ys) ++ xs) ≡ ys ++ xs
all_right m k xs ys le = rw (
  drop_all (m + k) ys le,
  take_all k (drop m ys) (omega (arith, length-drop m ys)),
  append-nil (take m ys),
  sym (append_assoc (take m ys) (drop m ys) xs),
  take-append-drop m ys,
)

left-Moved :
    (src dst : Node) (k : ℕ)
    → IsValid src
    → IsValid dst
    → 0 < k
    → 0 < span src 0 k
    → k ≤ src.num_items
    → span src 0 k + k * ih_size dst.keypol ≤ dst.free_space
    → let src_pos : Pos = record { item = 0; unit = max_uint32 } in
      let dst_pos : Pos = record { item = dst.num_items; unit = max_uint32 } in
      Moved true src dst
        (shrink src src_pos (span src 0 k) k)
        (copy (expand dst dst_pos (span src 0 k) k) dst_pos src src_pos k)
left-Moved src dst k vs vd pos_count pos_len le room =
    let r =
      expand-copy-Spliced dst dst.num_items src 0 k vd vs (omega arith) pos_count pos_len
        (omega arith) room in
    let c = shrink-Cut src 0 k vs (omega arith) in
    record {
      src_IsValid = Remaining.node-IsValid src _ 0 k vs (omega arith) c;
      dst_IsValid =
          Spliced.node-IsValid dst _ dst.num_items src 0 k vd vs (omega arith) pos_count
            (omega arith) r;
      same_items =
          ap₂ (λ xs ys. xs ++ ys)
            (Spliced.items_of-node dst _ dst.num_items src 0 k vd vs (omega arith) pos_count
              (omega arith) r)
            (Remaining.items_of-node src _ 0 k vs (omega arith) c
              ∙ ap (λ n. drop n (items_of src)) {x = 0 + k} {y = k} (omega arith))
          ∙ all_left dst.num_items k (items_of dst) (items_of src)
              (omega (arith, length-items_of dst));
    }

right-Moved :
    (src dst : Node) (k : ℕ)
    → IsValid src
    → IsValid dst
    → 0 < k
    → 0 < span src (src.num_items - k) k
    → k ≤ src.num_items
    → span src (src.num_items - k) k + k * ih_size dst.keypol ≤ dst.free_space
    → let src_pos : Pos = record { item = src.num_items - k; unit = max_uint32 } in
      let dst_pos : Pos = record { item = 0; unit = max_uint32 } in
      Moved false src dst
        (shrink src src_pos (span src (src.num_items - k) k) k)
        (copy (expand dst dst_pos (span src (src.num_items - k) k) k) dst_pos src src_pos k)
right-Moved src dst k vs vd pos_count pos_len le room =
    let m = src.num_items - k in
    let r =
      expand-copy-Spliced dst 0 src m k vd vs (omega arith) pos_count pos_len (omega arith) room in
    let c = shrink-Cut src m k vs (omega arith) in
    record {
      src_IsValid = Remaining.node-IsValid src _ m k vs (omega arith) c;
      dst_IsValid =
          Spliced.node-IsValid dst _ 0 src m k vd vs (omega arith) pos_count (omega arith) r;
      same_items =
          ap₂ (λ xs ys. xs ++ ys) (Remaining.items_of-node src _ m k vs (omega arith) c)
            (Spliced.items_of-node dst _ 0 src m k vd vs (omega arith) pos_count (omega arith) r)
          ∙ all_right m k (items_of dst) (items_of src) (omega (arith, length-items_of src));
    }

move_items-Moved :
    (src dst : Node) (h : ShiftHint)
    → IsValid src
    → IsValid dst
    → Counted src dst h.control h
    → 0 < h.items_number
    → 0 < h.items_bytes
    → let nodes = move_items src dst h in Moved h.control.allow_left src dst nodes.0 nodes.1
unfolding move_items
move_items-Moved src dst h vs vd c pos_count pos_len = at h.control.allow_left c.whole
  where
    k : ℕ
    k = h.items_number

    at :
        (left : Bool)
        → h.items_bytes ≡ span src (first left src.num_items k) k
        → let src_pos : Pos = record {
          item = if left then 0 else sub32 src.num_items k;
          unit = max_uint32;
        } in
          let dst_pos : Pos = record {
            item = if left then dst.num_items else 0;
            unit = max_uint32;
          } in
          Moved left src dst
            (shrink src src_pos h.items_bytes k)
            (copy (expand dst dst_pos h.items_bytes k) dst_pos src src_pos k)
    at true whole =
        rw whole
          (left-Moved src dst k vs vd pos_count (omega arith) c.some_of (omega (arith, c.room)))
    at false whole =
        rw (whole, minus)
          (right-Moved src dst k vs vd pos_count (omega arith) c.some_of (omega (arith, c.room)))
      where
        minus : sub32 src.num_items k ≡ src.num_items - k
        minus = omega (arith, c.some_of, valid_bounds vs)

-- node40_move returns, and whatever it moved, no item is lost, changed or out of order.
unfoldable pub MovesTo : Control → Node → Node → Option (Node × Node × ShiftHint) → Type 0
MovesTo control src dst none = ⊥
MovesTo control src dst (some r) =
    Moved control.allow_left src dst r.0 r.1 × (r.2.control ≡ control)

unmoved : (left : Bool) (src dst : Node) → IsValid src → IsValid dst → Moved left src dst src dst
unmoved left src dst vs vd = record { src_IsValid = vs; dst_IsValid = vd; same_items = refl }

move_predicted-MovesTo :
    (src dst : Node) (control : Control) (predicted : Option ShiftHint)
    → IsValid src
    → IsValid dst
    → Predicted src dst control predicted
    → MovesTo control src dst (move_predicted src dst predicted)
unfolding move_predicted MovesTo Predicted
move_predicted-MovesTo src dst control none vs vd c = c
move_predicted-MovesTo src dst control (some h) vs vd c =
    elim (Bool-cases (h.items_number == 0 || h.items_bytes == 0)) [
      | inl nothing ↦ rw nothing (unmoved control.allow_left src dst vs vd, c.flags)
      | inr items ↦ rw items (
        subst (λ f. Moved f.allow_left src dst (move_items src dst h).0 (move_items src dst h).1)
            c.flags
            (move_items-Moved src dst h vs vd (subst (λ f. Counted src dst f h) (sym c.flags) c)
              (ground arith) (ground arith)),
        c.flags,
      )
    ]

empty-MovesTo :
    (src dst : Node) (units : Option ℕ) (hint : ShiftHint)
    → IsValid src
    → IsValid dst
    → hint.items_number ≡ 0
    → src.num_items ≡ 0
    → MovesTo hint.control src dst (move src dst units hint)
unfolding move predict move_predicted MovesTo
empty-MovesTo src dst units hint vs vd no_items empty =
    rw (nothing, none_counted) (unmoved hint.control.allow_left src dst vs vd, refl)
  where
    nothing : (src.num_items == 0) ≡ true
    nothing = ground arith

    none_counted : (hint.items_number == 0 || hint.items_bytes == 0) ≡ true
    none_counted = ground arith

-- For two valid nodes and a hint that has counted nothing yet, where the plugin of the first item
-- of the source counts its units, or SF_UPDATE_POINT or SF_ALLOW_LEFT is not set, node40_move
-- returns without an error, whatever the insert point; both nodes stay valid, and the items of
-- the left node followed by those of the right one are the same items, in the same order, as
-- before.
pub move-MovesTo :
    (src dst : Node) (units : Option ℕ) (hint : ShiftHint)
    → IsValid src
    → IsValid dst
    → hint.items_number ≡ 0
    → hint.items_bytes ≡ 0
    → (units ≡ none → (hint.control.update_point && hint.control.allow_left) ≡ false)
    → MovesTo hint.control src dst (move src dst units hint)
unfolding move
move-MovesTo src dst units hint vs vd no_items no_bytes counted =
    elim (Bool-cases (src.num_items == 0)) [
      | inl empty ↦ empty-MovesTo src dst units hint vs vd no_items (ground arith)
      | inr full ↦
          move_predicted-MovesTo src dst hint.control (predict src dst units hint) vs vd
            (predict-Predicted src dst units hint vs vd no_items no_bytes (ground arith) counted)
    ]
