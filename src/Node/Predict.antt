-- ===== src/Node/Predict.antt =====
-- node40_predict: the items that it counts are whole items of the source, and fit into the neighbour.
use reiser4progs.Prelude.{
  ℕ, zero, suc, ◌+◌, ◌-◌, ◌*◌, ◌%◌, ◌≤◌, ◌<◌, ◌≡◌, ◌≢◌, refl, ◌∙◌, sym, ap, ap₂, inl, inr, Bool,
  true, false, not, Bool-cases, Option, none, some, ltb, leb, ◌==◌, if◌then◌else◌, ◌&&◌, ◌||◌,
  arith, u16_mod, u32_mod,
}
use reiser4progs.Node.{Node, ih_size}
use reiser4progs.Node.Contents.{
  bound, IsValid, bound_end, bound_item, bound_mono, bound_top, valid_bounds, headers_add,
  ih_size_le,
}
use reiser4progs.Node.Splice.{span}
use reiser4progs.Node.Shift.{
  Control, ShiftHint, Walk, goes, breaks, fails, update_left, update_right, update_point, item_len,
  after_walk, predict_loop, predict,
}

-- Where `k` items begin that go to the left, or to the right.
abbrev pub first : Bool → ℕ → ℕ → ℕ
first left m k = if left then 0 else m - k

-- The item that is next to go.
abbrev pub next : Bool → ℕ → ℕ → ℕ
next left m k = if left then k else m - suc k

pub record SameCounts (old new : ShiftHint) : Type 0 where
  pub number : new.items_number ≡ old.items_number
  pub bytes : new.items_bytes ≡ old.items_bytes
  pub flags : new.control ≡ old.control

Keeps : ShiftHint → Walk → Type 0
Keeps hint (goes h) = SameCounts hint h
Keeps hint (breaks h) = SameCounts hint h
Keeps hint fails = ⊥

update_point-Keeps :
    (units : Option ℕ) (src_items dst_items : ℕ) (hint : ShiftHint)
    → (units ≡ none → (hint.control.update_point && hint.control.allow_left) ≡ false)
    → Keeps hint (update_point units src_items dst_items hint)
unfolding update_point update_left update_right Keeps
update_point-Keeps (some u) src_items dst_items hint counted = ground arith
update_point-Keeps none src_items dst_items hint counted = ground (arith, counted refl)

item_len-span :
    (src : Node) (i : ℕ)
    → IsValid src
    → i < src.num_items
    → (item_len src i ≡ bound src (i + 1) - bound src i) × (item_len src i < u16_mod)
unfolding item_len
item_len-span src i v lt = elim (Bool-cases (i == src.num_items - 1)) [
  | inl last ↦ rw last (
      omega (
        arith,
        bound_item src i lt,
        bound_end src (i + 1) (ground arith),
        bound_top v i,
        valid_bounds v,
      ))
  | inr inner ↦ rw inner (
      omega (
        arith,
        bound_item src i lt,
        bound_item src (i + 1) (ground arith),
        bound_mono v i (i + 1) (omega arith),
        bound_top v (i + 1),
        valid_bounds v,
      ))
]

next_len :
    (src : Node) (left : Bool) (k : ℕ)
    → IsValid src
    → k < src.num_items
    → span src (first left src.num_items (suc k)) (suc k)
      ≡ span src (first left src.num_items k) k + item_len src (next left src.num_items k)
next_len src true k v lt = omega (
  arith,
  item_len-span src k v lt,
  bound_mono v 0 k (omega arith),
  bound_mono v k (k + 1) (omega arith),
  ap (bound src) {x = 0 + suc k} {y = k + 1} (omega arith),
  ap (bound src) {x = 0 + k} {y = k} (omega arith),
)
next_len src false k v lt = omega (
  arith,
  item_len-span src (src.num_items - suc k) v (omega arith),
  bound_mono v (src.num_items - suc k) (src.num_items - k) (omega arith),
  bound_mono v (src.num_items - k) src.num_items (omega arith),
  ap (bound src) {x = src.num_items - suc k + suc k} {y = src.num_items} (omega arith),
  ap (bound src) {x = src.num_items - suc k + 1} {y = src.num_items - k} (omega arith),
  ap (bound src) {x = src.num_items - k + k} {y = src.num_items} (omega arith),
)

-- `h` has counted whole items, and room is left for `units_bytes`.
pub record Counted (src dst : Node) (control : Control) (h : ShiftHint) : Type 0 where
  pub some_of : h.items_number ≤ src.num_items
  pub whole :
      h.items_bytes
      ≡ span src (first control.allow_left src.num_items h.items_number) h.items_number
  pub room : h.units_bytes + h.items_bytes + h.items_number * ih_size dst.keypol ≡ dst.free_space
  pub flags : h.control ≡ control

unfoldable pub Predicted : Node → Node → Control → Option ShiftHint → Type 0
Predicted src dst control none = ⊥
Predicted src dst control (some h) = Counted src dst control h

-- What holds while the loop runs.
record Loop (src dst : Node) (control : Control) (n cur space : ℕ) (hint : ShiftHint) : Type 0 where
  rest : hint.items_number + n ≡ src.num_items
  at : n ≢ 0 → cur ≡ next control.allow_left src.num_items hint.items_number
  whole :
      hint.items_bytes
      ≡ span src (first control.allow_left src.num_items hint.items_number) hint.items_number
  room : space + hint.items_bytes + hint.items_number * ih_size dst.keypol ≡ dst.free_space
  flags : hint.control ≡ control

Loop-Counted :
    (src dst : Node) (control : Control) (n cur space : ℕ) (hint h : ShiftHint)
    → Loop src dst control n cur space hint
    → SameCounts hint h
    → Counted src dst control (record h { units_bytes = space })
Loop-Counted src dst control n cur space hint h l same = record {
  some_of = omega (arith, l.rest, same.number);
  whole = rw (same.number, same.bytes) l.whole;
  room = rw (same.number, same.bytes) l.room;
  flags = same.flags ∙ l.flags;
}

step-Loop :
    (src dst : Node) (control : Control) (n cur space : ℕ) (hint h : ShiftHint)
    → IsValid src
    → dst.free_space < u16_mod
    → Loop src dst control (suc n) cur space hint
    → SameCounts hint h
    → (item_len src cur + ih_size dst.keypol) % u32_mod ≤ space
    → Loop src dst control n
        (if control.allow_left then cur + 1 else cur - 1)
        (space - (item_len src cur + ih_size dst.keypol) % u32_mod)
        (record h {
          items_number = (h.items_number + 1) % u32_mod;
          items_bytes = (h.items_bytes + item_len src cur) % u32_mod;
        })
step-Loop src dst control n cur space hint h v small l same fits = record {
  rest = omega (arith, l.rest, number);
  at = λ more. next_at control.allow_left (l.at (omega arith));
  whole =
      bytes
      ∙ ap₂ (λ b i. b + item_len src i) l.whole (l.at (omega arith))
      ∙ sym (next_len src control.allow_left hint.items_number v (omega (arith, l.rest)))
      ∙ ap (λ k. span src (first control.allow_left src.num_items k) k) (omega (arith, number));
  room = omega (
    arith,
    bytes,
    number,
    l.room,
    len,
    fits,
    ih_size_le dst.keypol,
    headers_add hint.items_number 1 (ih_size dst.keypol),
    ap (λ k. k * ih_size dst.keypol) number,
  );
  flags = same.flags ∙ l.flags;
}
  where
    number : (h.items_number + 1) % u32_mod ≡ hint.items_number + 1
    number = omega (arith, same.number, l.rest, valid_bounds v)

    next_at :
        (left : Bool)
        → cur ≡ next left src.num_items hint.items_number
        → (if left then cur + 1 else cur - 1)
          ≡ next left src.num_items ((h.items_number + 1) % u32_mod)
    next_at true e = omega (arith, number)
    next_at false e = omega (arith, number)

    cur_inside : cur < src.num_items
    cur_inside = inside control.allow_left (l.at (omega arith))
      where
        inside :
            (left : Bool) → cur ≡ next left src.num_items hint.items_number → cur < src.num_items
        inside true e = omega (arith, l.rest)
        inside false e = omega (arith, l.rest)

    len : item_len src cur < u16_mod
    len = omega (arith, item_len-span src cur v cur_inside)

    bytes : (h.items_bytes + item_len src cur) % u32_mod ≡ hint.items_bytes + item_len src cur
    bytes = omega (arith, same.bytes, l.room, len)

after_walk-Predicted :
    (src dst : Node) (control : Control) (n cur space : ℕ) (hint : ShiftHint) (w : Walk)
    (k : ShiftHint → Option ShiftHint)
    → Loop src dst control n cur space hint
    → Keeps hint w
    → ((h : ShiftHint) → SameCounts hint h → Predicted src dst control (k h))
    → Predicted src dst control (after_walk w space k)
unfolding after_walk Predicted Keeps
after_walk-Predicted src dst control n cur space hint (goes h) k l same further = further h same
after_walk-Predicted src dst control n cur space hint (breaks h) k l same further =
    Loop-Counted src dst control n cur space hint h l same
after_walk-Predicted src dst control n cur space hint fails k l same further = elim same [ ]

predict_loop-Predicted :
    (n : ℕ) (src dst : Node) (control : Control) (units : Option ℕ) (cur dst_items space : ℕ)
    (hint : ShiftHint)
    → (units ≡ none → (control.update_point && control.allow_left) ≡ false)
    → IsValid src
    → dst.free_space < u16_mod
    → Loop src dst control n cur space hint
    → Predicted src dst control
        (predict_loop src (ih_size dst.keypol) units n cur dst_items space hint)
unfolding predict_loop Predicted
predict_loop-Predicted zero src dst control units cur dst_items space hint counted v small l =
    Loop-Counted src dst control zero cur space hint hint l
      (record { number = refl; bytes = refl; flags = refl })
predict_loop-Predicted (suc n) src dst control units cur dst_items space hint counted v small l =
    elim (Bool-cases stop) [
      | inl e ↦
          rw (e, predict_loop, Predicted)
            (Loop-Counted src dst control (suc n) cur space hint hint l
              (record { number = refl; bytes = refl; flags = refl }))
      | inr e ↦
          rw (e, predict_loop, Predicted)
            (after_walk-Predicted src dst control (suc n) cur space hint
              (update_point units (suc n) dst_items hint) _ l
              (update_point-Keeps units (suc n) dst_items hint (rw l.flags counted))
              (λ h same. predict_loop-Predicted n src dst control units _ _ _ _ counted v small (
                rw (ap (λ c. c.allow_left) l.flags)
                  (step-Loop src dst control n cur space hint h v small l same (ground arith)))))
    ]
  where
    stop : Bool
    stop =
        hint.moved
        || not hint.control.move_point && hint.control.allow_right && leb (suc n) hint.pos.item
        || ltb space ((item_len src cur + ih_size dst.keypol) % u32_mod)

-- For two valid nodes, of which the source has items, and a hint that has counted nothing yet,
-- where the plugin of the first item of the source counts its units, or SF_UPDATE_POINT or
-- SF_ALLOW_LEFT is not set, node40_predict returns without an error and counts at most the items
-- of the source: `items_bytes` is the length of that many whole items at the border, and together
-- with their headers and `units_bytes` it is the free space of the neighbour.
pub predict-Predicted :
    (src dst : Node) (units : Option ℕ) (hint : ShiftHint)
    → IsValid src
    → IsValid dst
    → hint.items_number ≡ 0
    → hint.items_bytes ≡ 0
    → src.num_items ≢ 0
    → (units ≡ none → (hint.control.update_point && hint.control.allow_left) ≡ false)
    → Predicted src dst hint.control (predict src dst units hint)
unfolding predict
predict-Predicted src dst units hint vs vd none_yet no_bytes some_items counted = rw nonempty (
    predict_loop-Predicted src.num_items src dst hint.control units _ _ _ hint counted vs
      (omega (arith, valid_bounds vd))
      (record {
        rest = omega arith;
        at = λ more. at hint.control.allow_left;
        whole = whole hint.control.allow_left;
        room = rw none_yet (omega arith);
        flags = refl;
      }))
  where
    nonempty : (src.num_items == 0) ≡ false
    nonempty = ground arith

    at :
        (left : Bool)
        → (if left then 0 else src.num_items - 1) ≡ next left src.num_items hint.items_number
    at true = omega arith
    at false = omega arith

    whole :
        (left : Bool)
        → hint.items_bytes ≡ span src (first left src.num_items hint.items_number) hint.items_number
    whole true = rw none_yet (omega arith)
    whole false = rw none_yet (
        omega
          (arith, ap (bound src) {x = src.num_items - 0 + 0} {y = src.num_items - 0} (omega arith)))
