-- ===== src/Node/Greedy.antt =====
-- node40_predict without an insert point to care for: it counts as many items as fit.
use reiser4progs.Prelude.{
  ℕ, zero, suc, ◌+◌, ◌-◌, ◌%◌, ◌<◌, ◌≡◌, ◌≢◌, refl, ap, inl, inr, ◌⊎◌, Bool, true, false, not,
  Bool-cases, Option, none, some, ltb, leb, ◌==◌, if◌then◌else◌, ◌&&◌, ◌||◌, arith, u16_mod,
  u32_mod,
}
use reiser4progs.Node.{Node, ih_size}
use reiser4progs.Node.Contents.{IsValid, valid_bounds}
use reiser4progs.Node.Shift.{
  Control, ShiftHint, goes, update_point, item_len, after_walk, predict_loop, predict,
}
use reiser4progs.Node.Predict.{next}

-- All items of the source, or all that fit: the next one is longer than the space that is left.
unfoldable pub Greedy : Node → ℕ → Bool → Option ShiftHint → Type 0
Greedy src overhead left none = ⊥
Greedy src overhead left (some h) =
    (h.items_number ≡ src.num_items)
    ⊎ ((h.items_number < src.num_items)
        × (h.units_bytes < item_len src (next left src.num_items h.items_number) + overhead))

-- The flags under which only the space counts.
pub record IsFree (control : Control) : Type 0 where
  pub no_point : control.update_point ≡ false
  pub no_limit : (not control.move_point && control.allow_right) ≡ false

walk_free :
    (units : Option ℕ) (src_items dst_items : ℕ) (hint : ShiftHint)
    → IsFree hint.control
    → update_point units src_items dst_items hint ≡ goes hint
unfolding update_point
walk_free units src_items dst_items hint free = simp free.no_point refl

predict_loop-Greedy :
    (n : ℕ) (src : Node) (overhead : ℕ) (units : Option ℕ) (cur dst_items space : ℕ)
    (hint : ShiftHint)
    → IsFree hint.control
    → hint.moved ≡ false
    → src.num_items < u16_mod
    → hint.items_number + n ≡ src.num_items
    → (n ≢ 0 → cur ≡ next hint.control.allow_left src.num_items hint.items_number)
    → Greedy src overhead hint.control.allow_left
        (predict_loop src overhead units n cur dst_items space hint)
unfolding predict_loop Greedy after_walk
predict_loop-Greedy zero src overhead units cur dst_items space hint free stays small rest at =
    inl (omega arith)
predict_loop-Greedy (suc n) src overhead units cur dst_items space hint free stays small rest at =
    elim (Bool-cases stop) [
      | inl e ↦
          rw (e, predict_loop, Greedy)
            (inr (
              omega arith,
              omega (
                arith,
                tight hint.moved (not hint.control.move_point && hint.control.allow_right)
                    (leb (suc n) hint.pos.item) stays free.no_limit e,
                ap (item_len src) (at (omega arith)),
              ),
            ))
      | inr e ↦
          rw (e, walk_free units (suc n) dst_items hint free, predict_loop, Greedy)
            (predict_loop-Greedy n src overhead units _ _ _ _ free stays small (omega arith)
              (λ more. next_at hint.control.allow_left (at (omega arith))))
    ]
  where
    stop : Bool
    stop =
        hint.moved
        || not hint.control.move_point && hint.control.allow_right && leb (suc n) hint.pos.item
        || ltb space ((item_len src cur + overhead) % u32_mod)

    tight :
        (moved limit below : Bool)
        → moved ≡ false
        → limit ≡ false
        → (moved || limit && below || ltb space ((item_len src cur + overhead) % u32_mod)) ≡ true
        → space < (item_len src cur + overhead) % u32_mod
    tight moved limit below m l t = ground arith

    next_at :
        (left : Bool)
        → cur ≡ next left src.num_items hint.items_number
        → (if left then cur + 1 else cur - 1)
          ≡ next left src.num_items ((hint.items_number + 1) % u32_mod)
    next_at true e = omega arith
    next_at false e = omega arith

-- From a valid node, with a hint that has counted no item and moved no insert point, without
-- SF_UPDATE_POINT, and to the left or with SF_MOVE_POINT, node40_predict counts as many items as
-- fit: all of the source, or so many that the next one with its header is longer than the space
-- that is left.
pub predict-Greedy :
    (src dst : Node) (units : Option ℕ) (hint : ShiftHint)
    → IsValid src
    → IsFree hint.control
    → hint.moved ≡ false
    → hint.items_number ≡ 0
    → Greedy src (ih_size dst.keypol) hint.control.allow_left (predict src dst units hint)
unfolding predict Greedy
predict-Greedy src dst units hint v free stays none_yet = elim (Bool-cases (src.num_items == 0)) [
  | inl empty ↦ rw empty (inl (ground arith))
  | inr full ↦ rw full (
      predict_loop-Greedy src.num_items src (ih_size dst.keypol) units _ _ _ hint free stays
        (omega (arith, valid_bounds v)) (omega arith) (λ more. at hint.control.allow_left))
]
  where
    at :
        (left : Bool)
        → (if left then 0 else src.num_items - 1) ≡ next left src.num_items hint.items_number
    at true = omega arith
    at false = omega arith
