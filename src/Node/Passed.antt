-- ===== src/Node/Passed.antt =====
-- node40_unite into an item that the neighbour has: the source item gives units, the other takes them.
use reiser4progs.Prelude.{
  ℕ, ◌+◌, ◌-◌, ◌%◌, ◌≤◌, ◌<◌, ◌≡◌, refl, ◌∙◌, ap, inl, inr, ◌⊎◌, true, false, Bool-cases, some,
  List, ◌==◌, if◌then◌else◌, arith, subst, u32_mod,
}
use reiser4progs.Node.{Node, Pos}
use reiser4progs.Node.Contents.{bound, IsValid, bound_mono}
use reiser4progs.Node.Space.{expand}
use reiser4progs.Node.Splice.{span}
use reiser4progs.Node.Place.{Place, place_of, fetch, fetch_known, put_bytes}
use reiser4progs.Node.Resize.{Resized, put_key-Resized, put_bytes-Resized, shrink-Resized}
use reiser4progs.Node.Grow.{expand-Resized}
use reiser4progs.Node.Rekey.{shrink-put_key}
use reiser4progs.Node.Changed.{Changed, Resized-Changed}
use reiser4progs.Node.Trunc.{Gone, whole-Gone, changed, unresized}
use reiser4progs.Node.Units.{place_of-Resized}
use reiser4progs.Node.Shift.{ShiftHint}
use reiser4progs.Node.Unite.{
  ShiftPlugs, UnitsShifted, unite_end, unite_expand, unite_shift, created_item,
}

-- The source item has given `units_bytes` bytes, or all its units.
abbrev pub Given : Node → Node → ℕ → ℕ → UnitsShifted → Type 0
Given src src' s units r =
    if r.hint.units_number == units
    then Gone src src' s
    else Changed src src' s (span src s 1 - r.hint.units_bytes)
        (if r.hint.control.allow_left then r.src_place.key else (src.ih s).key)

taken :
    (old node : Node) (d grow : ℕ) (key : List ℕ)
    → IsValid old
    → d < old.num_items
    → Resized old node d 0 grow key
    → Changed old node d (span old d 1 + grow) key
taken old node d grow key v lt e =
    subst (λ n. Changed old node d n key) (omega arith)
      (Resized-Changed old node d 0 grow key v lt (omega arith) e)

module _ (src : Node) (s units : ℕ) (r : UnitsShifted) (v : IsValid src) (lt : s < src.num_items)
    (outside : (a : ℕ) → (a < bound src s) ⊎ (bound src (s + 1) ≤ a) → r.src_bytes a ≡ src.bytes a)
    (item : r.src_place.pos.item ≡ s) (same_len : r.src_place.len ≡ span src s 1) (ok : r.ok ≡ true)
    (fits : r.hint.units_bytes ≤ span src s 1) where
  abbrev left_over : ℕ
  left_over = span src s 1 - r.hint.units_bytes

  unite_end-Given : (dst : Node) → Given src (unite_end src dst units r).src s units r
  unfolding unite_end
  unite_end-Given dst = elim (Bool-cases (r.hint.units_number == units)) [
    | inl all ↦ simp (ok, all, item, same_len) (whole-Gone src s r.src_bytes v lt outside)
    | inr part ↦ elim (Bool-cases r.hint.control.allow_left) [
      | inl left ↦
          simp (ok, part, item, left)
            (changed src s _ r.hint.units_bytes left_over r.src_place.key v lt
              (shrink-put_key src s 0 r.hint.units_bytes 1 r.src_bytes r.src_place.key v lt
                (omega arith) fits outside)
              fits refl)
      | inr right ↦
          simp (ok, part, item, right)
            (changed src s _ r.hint.units_bytes left_over (src.ih s).key v lt
              (shrink-Resized src s 0 r.hint.units_bytes 1 r.src_bytes v lt (omega arith) fits
                outside)
              fits refl)
    ]
  ]

  unite_end-Taken :
      (old dst : Node) (d grow : ℕ) (key : List ℕ)
      → IsValid old
      → d < old.num_items
      → Resized old (put_bytes dst r.dst_bytes) d 0 grow key
      → r.dst_place.pos.item ≡ d
      → Changed old
          (unite_end src dst units r).dst
          d
          (span old d 1 + grow)
          (if r.hint.control.allow_left then key else r.dst_place.key)
  unfolding unite_end
  unite_end-Taken old dst d grow key vo inside e there =
      elim (Bool-cases r.hint.control.allow_left) [
        | inl left ↦ elim (Bool-cases (r.hint.units_number == units)) [
          | inl all ↦ simp (ok, all, left) (taken old _ d grow key vo inside e)
          | inr part ↦ simp (ok, part, left) (taken old _ d grow key vo inside e)
        ]
        | inr right ↦ elim (Bool-cases (r.hint.units_number == units)) [
          | inl all ↦
              simp (ok, all, right, there)
                (taken old _ d grow r.dst_place.key vo inside (put_key-Resized r.dst_place.key e))
          | inr part ↦
              simp (ok, part, right, there)
                (taken old _ d grow r.dst_place.key vo inside (put_key-Resized r.dst_place.key e))
        ]
      ]

-- What one call of shift_units does with the bytes and the places: it writes into both bodies only,
-- moves no place to another item, and leaves the length of the source body and the number of bytes
-- as they are.
pub record ShiftsUnits (src dst : Node) (src_place dst_place : Place) (hint : ShiftHint)
    (r : UnitsShifted) : Type 0 where
  pub src_confined :
      (a : ℕ)
      → (a < src_place.body) ⊎ (src_place.body + src_place.len ≤ a)
      → r.src_bytes a ≡ src.bytes a
  pub dst_confined :
      (a : ℕ)
      → (a < dst_place.body) ⊎ (dst_place.body + dst_place.len ≤ a)
      → r.dst_bytes a ≡ dst.bytes a
  pub keeps :
      (r.src_place.pos.item ≡ src_place.pos.item)
      × (r.src_place.len ≡ src_place.len)
      × (r.dst_place.pos.item ≡ dst_place.pos.item)
      × (r.hint.units_bytes ≡ hint.units_bytes)

-- What shift_units returns for the room in item `d`.
abbrev pub shift_result : ShiftPlugs → Node → Node → ℕ → ℕ → ℕ → ShiftHint → UnitsShifted
shift_result plugs src dst s d u hint =
    let pos : Pos = record { item = d; unit = 0 } in
    let room = expand dst pos hint.units_bytes 1 in
    plugs.shift_units (src.ih s).pid src (place_of plugs.items src (record { item = s; unit = u }))
      room (place_of plugs.items room pos) hint

expand_existing :
    (plugs : ShiftPlugs) (src dst : Node) (hint : ShiftHint) (src_place : Place) (pos : Pos)
    → hint.create ≡ false
    → let room = expand dst pos hint.units_bytes 1 in
      unite_expand plugs src dst hint src_place pos
      ≡ unite_shift plugs src room hint src_place (fetch plugs.items room pos)
unfolding unite_expand
expand_existing plugs src dst hint src_place pos old =
    let room = expand dst pos hint.units_bytes 1 in
    ap
      (λ c.
        let dst' = if c then created_item src src_place room pos.item else room in
        unite_shift plugs src dst' hint src_place (fetch plugs.items dst' pos))
      old

shift_existing :
    (plugs : ShiftPlugs) (src dst : Node) (hint : ShiftHint) (src_place dst_place : Place)
    → hint.create ≡ false
    → unite_shift plugs src dst hint src_place (some dst_place)
      ≡ unite_end src dst
          (plugs.items.units src_place.plug src src_place % u32_mod)
          (plugs.shift_units src_place.plug src src_place dst dst_place hint)
unfolding unite_shift
shift_existing plugs src dst hint src_place dst_place old =
    ap
      (λ c. unite_end src dst (plugs.items.units src_place.plug src src_place % u32_mod) (
        plugs.shift_units src_place.plug src src_place dst
          (if c
            then record dst_place {
              key = plugs.next_offset (plugs.maxreal_key src_place.plug src src_place);
            }
            else dst_place)
          hint))
      old

-- Between an item of each of two valid nodes, for a hint without a new item whose bytes, at least
-- one, fit into the neighbour and come from the source item, with plugins of which that of the
-- neighbour is known, and if shift_units succeeds and in this call writes into both bodies only,
-- keeps both places at their items, and leaves the number of bytes and the length of the source
-- body as they are, the part of node40_unite that changes the nodes leaves all other items of
-- both as they are: the item of the neighbour is longer by these bytes, and that of the source
-- has lost them, or is gone when all its units went; a shift to the left gives the source item
-- its new key, one to the right the other item.
pub unite_expand-Changed :
    (plugs : ShiftPlugs) (src dst : Node) (s d u : ℕ) (hint : ShiftHint)
    → IsValid src
    → IsValid dst
    → s < src.num_items
    → d < dst.num_items
    → hint.create ≡ false
    → 0 < hint.units_bytes
    → hint.units_bytes ≤ dst.free_space
    → hint.units_bytes ≤ span src s 1
    → plugs.items.known (dst.ih d).pid ≡ true
    → (let room = expand dst (record { item = d; unit = 0 }) hint.units_bytes 1 in
        ShiftsUnits src room
          (place_of plugs.items src (record { item = s; unit = u }))
          (place_of plugs.items room (record { item = d; unit = 0 }))
          hint
          (shift_result plugs src dst s d u hint))
    → (shift_result plugs src dst s d u hint).ok ≡ true
    → let src_place = place_of plugs.items src (record { item = s; unit = u }) in
      let r = shift_result plugs src dst s d u hint in
      let units = plugs.items.units (src.ih s).pid src src_place % u32_mod in
      let after = unite_expand plugs src dst hint src_place (record { item = d; unit = 0 }) in
      Given src after.src s units r
      × Changed dst after.dst d
          (span dst d 1 + hint.units_bytes)
          (if r.hint.control.allow_left then (dst.ih d).key else r.dst_place.key)
unfolding place_of
unite_expand-Changed plugs src dst s d u hint vs vd at_s at_d old pos_bytes fits_dst fits_src known
      laws ok =
    rw same (
      unite_end-Given src s units r vs at_s src_outside kept.0 (kept.1 ∙ at.1 ∙ omega arith) ok fits
          room,
      unite_end-Taken src s units r vs at_s src_outside kept.0 (kept.1 ∙ at.1 ∙ omega arith) ok fits
          dst room d hint.units_bytes (dst.ih d).key vd at_d
          (put_bytes-Resized r.dst_bytes e vd (omega arith) dst_outside) kept.2,
    )
  where
    pos : Pos
    pos = record { item = d; unit = 0 }

    room : Node
    room = expand dst pos hint.units_bytes 1

    e : Resized dst room d 0 hint.units_bytes (dst.ih d).key
    e = expand-Resized dst d 0 hint.units_bytes 1 vd at_d (omega arith) pos_bytes fits_dst

    src_place : Place
    src_place = place_of plugs.items src (record { item = s; unit = u })

    dst_place : Place
    dst_place = place_of plugs.items room pos

    units : ℕ
    units = plugs.items.units (src.ih s).pid src src_place % u32_mod

    r : UnitsShifted
    r = shift_result plugs src dst s d u hint

    kept :
        (r.src_place.pos.item ≡ s)
        × (r.src_place.len ≡ src_place.len)
        × (r.dst_place.pos.item ≡ d)
        × (r.hint.units_bytes ≡ hint.units_bytes)
    kept = laws.keeps

    at : (src_place.body ≡ bound src s) × (src_place.len ≡ span src s 1 + 0 - 0)
    at =
        place_of-Resized plugs.items src src s u 0 0 (src.ih s).key vs at_s (omega arith)
          (unresized src s)

    there : (dst_place.body ≡ bound dst d) × (dst_place.len ≡ span dst d 1 + hint.units_bytes - 0)
    there =
        place_of-Resized plugs.items dst room d 0 0 hint.units_bytes (dst.ih d).key vd at_d
          (omega arith) e

    src_outside :
        (a : ℕ) → (a < bound src s) ⊎ (bound src (s + 1) ≤ a) → r.src_bytes a ≡ src.bytes a
    src_outside a h =
        laws.src_confined a (ground (arith, h, at, bound_mono vs s (s + 1) (omega arith)))

    dst_outside :
        (a : ℕ)
        → (a < bound dst d) ⊎ (bound dst (d + 1) + hint.units_bytes - 0 ≤ a)
        → r.dst_bytes a ≡ room.bytes a
    dst_outside a h =
        laws.dst_confined a (ground (arith, h, there, bound_mono vd d (d + 1) (omega arith)))

    fits : r.hint.units_bytes ≤ span src s 1
    fits = omega (arith, kept.3, fits_src)

    fetched : fetch plugs.items room pos ≡ some dst_place
    fetched = fetch_known plugs.items room pos (ap (λ h. plugs.items.known h.pid) e.at ∙ known)

    same : unite_expand plugs src dst hint src_place pos ≡ unite_end src room units r
    same =
        expand_existing plugs src dst hint src_place pos old
        ∙ ap (unite_shift plugs src room hint src_place) fetched
        ∙ shift_existing plugs src room hint src_place dst_place old
