-- ===== src/Node/Neighbours.antt =====
-- node40_shift without SF_ALLOW_MERGE: only whole items go to the neighbour.
use reiser4progs.Prelude.{
  ℕ, ◌≡◌, refl, ◌∙◌, ap, Bool, true, false, Bool-cases, inl, inr, Option, none, some, not, ◌%◌,
  u32_mod, arith,
}
use reiser4progs.Node.{Node, Pos, max_uint32}
use reiser4progs.Node.Contents.{IsValid}
use reiser4progs.Node.Place.{Place, place_of, fetch_known, border}
use reiser4progs.Node.Shift.{Control, ShiftHint}
use reiser4progs.Node.Move.{Moved, MovesTo, move-MovesTo}
use reiser4progs.Node.Unite.{
  ShiftPlugs, Shifted, done, units_of, shift, shift_whole, shift_second, shift_moved, shift_third,
  shift_end,
}

-- No error, and the items of both nodes are those that they had.
pub record Kept (left : Bool) (src dst : Node) (r : Shifted) : Type 0 where
  pub no_error : r.ok ≡ true
  pub kept : Moved left src dst r.src r.dst

third-Kept :
    (plugs : ShiftPlugs) (src dst : Node) (control : Control) (r : Shifted)
    → Kept control.allow_left src dst r
    → r.hint.control ≡ control
    → control.allow_merge ≡ false
    → Kept control.allow_left src dst (shift_third plugs r)
unfolding shift_third shift_end
third-Kept plugs src dst control r k same whole = elim (Bool-cases r.hint.moved) [
  | inl moved ↦ simp moved k
  | inr stays ↦
      simp (stays, ap (λ c. c.allow_merge) same ∙ whole)
        (record { no_error = k.no_error; kept = k.kept })
]

moved-Kept :
    (plugs : ShiftPlugs) (src dst : Node) (control : Control) (hint : ShiftHint)
    (r : Option (Node × Node × ShiftHint))
    → MovesTo control src dst r
    → control.allow_merge ≡ false
    → Kept control.allow_left src dst (shift_moved plugs src dst hint r)
unfolding shift_moved MovesTo
moved-Kept plugs src dst control hint none m whole = elim m [ ]
moved-Kept plugs src dst control hint (some r) m whole =
    third-Kept plugs src dst control (done r.0 r.1 r.2) (record { no_error = refl; kept = m.0 }) m.1
      whole

-- For two valid nodes whose border items there are and are not mergeable, a hint that has counted
-- nothing and moved no insert point, and a first item whose plugin counts its units, node40_shift
-- without SF_ALLOW_MERGE returns without an error, and both nodes together keep their items in
-- order.
pub shift-Kept :
    (plugs : ShiftPlugs) (src dst : Node) (hint : ShiftHint) (src_place dst_place : Place)
    → IsValid src
    → IsValid dst
    → hint.items_number ≡ 0
    → hint.items_bytes ≡ 0
    → hint.moved ≡ false
    → hint.control.allow_merge ≡ false
    → border plugs.items src hint.control.allow_left ≡ some src_place
    → border plugs.items dst (not hint.control.allow_left) ≡ some dst_place
    → plugs.mergeable src src_place dst dst_place ≡ false
    → plugs.items.known (src.ih 0).pid ≡ true
    → plugs.items.has_units (src.ih 0).pid ≡ true
    → Kept hint.control.allow_left src dst (shift plugs src dst hint)
unfolding shift shift_whole shift_second units_of place_of
shift-Kept plugs src dst hint src_place dst_place vs vd no_items no_bytes stays whole at_src at_dst
      apart known counted =
    simp (whole, at_src, at_dst, apart, stays, fetch_known plugs.items src first known, counted)
      (moved-Kept plugs src dst hint.control hint _
        (move-MovesTo src dst (some units) hint vs vd no_items no_bytes
          (λ e. absurd (ground (arith, e))))
        whole)
  where
    first : Pos
    first = record { item = 0; unit = max_uint32 }

    units : ℕ
    units = plugs.items.units (src.ih 0).pid src (place_of plugs.items src first) % u32_mod
