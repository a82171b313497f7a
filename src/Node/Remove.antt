-- ===== src/Node/Remove.antt =====
-- node40_remove: whole items go, or units of one.
use reiser4progs.Prelude.{
  ℕ, zero, suc, ◌+◌, ◌-◌, ◌%◌, ◌≤◌, ◌<◌, ◌≡◌, ◌≢◌, refl, ◌∙◌, sym, ap, inl, inr, ◌⊎◌, Bool, true,
  false, Bool-cases, Option, none, some, List, ◌++◌, take, drop, ◌==◌, if◌then◌else◌, leb, ◌||◌,
  not, arith, subst, u32_mod,
}
use reiser4progs.Node.{Node, Pos, max_uint32}
use reiser4progs.Node.Contents.{items_of, bound, IsValid, bound_mono, valid_bounds}
use reiser4progs.Node.Space.{shrink}
use reiser4progs.Node.Splice.{span}
use reiser4progs.Node.Shrink.{Cut, shrink-Cut}
use reiser4progs.Node.Remaining
use reiser4progs.Node.Insert.{IsConfined}
use reiser4progs.Node.Resize.{shrink-Resized}
use reiser4progs.Node.Rekey.{shrink-put_key}
use reiser4progs.Node.Changed.{Changed}
use reiser4progs.Node.Place.{
  Place, place_of, TransHint, Effect, Method, ItemPlugs, fetch_known, put_bytes,
}
use reiser4progs.Node.Modify.{
  Removed, layouts, layout_item, walk_layouts, remove, remove_items, remove_shrink, units_effect,
  units_end, units_fetched,
}
use reiser4progs.Node.Units.{place_of-Resized}
use reiser4progs.Node.Trunc.{KeepsPlace, Gone, whole-Gone, unresized, written-Resized, changed}
use reiser4progs.Node.Splice.{size-span}

-- The walk over items that all have their plugins.
layout_item-ok :
    (plugs : ItemPlugs) (item : ℕ) (rest : Bool × List ℕ) (place : Place)
    → rest.0 ≡ true
    → (layout_item plugs item rest (some place)).0 ≡ true
unfolding layout_item
layout_item-ok plugs item rest place ok =
    elim (Bool-cases (plugs.ptr_item place.plug || not (plugs.layout place.plug))) [
      | inl skipped ↦ rw skipped ok
      | inr called ↦ rw called ok
    ]

walk_known :
    (plugs : ItemPlugs) (node : Node) (item n : ℕ) (regions : Bool)
    → ((i : ℕ) → item ≤ i → i < item + n → plugs.known (node.ih i).pid ≡ true)
    → (walk_layouts plugs node item n regions).0 ≡ true
unfolding layouts walk_layouts
walk_known plugs node item n false known = refl
walk_known plugs node item zero true known = refl
walk_known plugs node item (suc n) true known =
    ap (λ f. (layout_item plugs item (layouts plugs node (item + 1) n) f).0)
      (fetch_known plugs node pos (known item (omega arith) (omega arith)))
    ∙ layout_item-ok plugs item (layouts plugs node (item + 1) n) (place_of plugs node pos)
        (walk_known plugs node (item + 1) n true (λ i from to. known i (omega arith) (omega arith)))
  where
    pos : Pos
    pos = record { item = item; unit = max_uint32 }

-- For at least one item, all inside a valid node and of known plugins, node40_remove succeeds and
-- leaves a valid node with the items in front of them and behind them.
pub remove-items :
    (plugs : ItemPlugs) (node : Node) (p : ℕ) (hint : TransHint)
    → IsValid node
    → p + hint.count ≤ node.num_items
    → 0 < hint.count
    → ((i : ℕ) → p ≤ i → i < p + hint.count → plugs.known (node.ih i).pid ≡ true)
    → let r = remove plugs node (record { item = p; unit = max_uint32 }) hint in
      (r.ok ≡ true)
      × IsValid r.node
      × (items_of r.node ≡ take p (items_of node) ++ drop (p + hint.count) (items_of node))
unfolding remove remove_items
remove-items plugs node p hint v le pos_count known =
    rw
      (
        no_wrap,
        walk_known plugs node p hint.count hint.regions known,
        size-span node p hint.count max_uint32 v (omega arith) le,
      )
      (
        refl,
        Remaining.node-IsValid node _ p hint.count v le c,
        Remaining.items_of-node node _ p hint.count v le c,
      )
  where
    no_wrap : hint.count % u32_mod ≡ hint.count
    no_wrap = omega (arith, valid_bounds v)

    c :
        Cut node
          (shrink node (record { item = p; unit = max_uint32 }) (span node p hint.count) hint.count)
          p
          hint.count
    c = shrink-Cut node p hint.count v le

-- What node40_remove of units makes of item `p` with `units` units, after the method has left `e` and
-- returned `result`: an item that has become empty goes.
abbrev pub Lost : Node → ℕ → ℕ → ℕ → Effect → Removed → Option ℕ → Type 0
Lost node p u units e r none =
    (r.ok ≡ false) × Changed node r.node p (span node p 1) (node.ih p).key
Lost node p u units e r (some done) =
    let len = (e.hint.len + e.hint.overhead) % u32_mod in
    (r.ok ≡ true)
    × (if leb (span node p 1) len || units == e.hint.count
        then Gone node r.node p
        else Changed node r.node p (span node p 1 - len)
            (if u == 0 then e.place.key else (node.ih p).key))

module _ (plugs : ItemPlugs) (node : Node) (p u units : ℕ) (e : Effect) (v : IsValid node)
    (lt : p < node.num_items)
    (outside : (a : ℕ) → (a < bound node p) ⊎ (bound node (p + 1) ≤ a) → e.bytes a ≡ node.bytes a)
    (part : u ≢ max_uint32) (same_len : e.place.len ≡ span node p 1) where
  abbrev pos : Pos
  pos = record { item = p; unit = u }

  abbrev len : ℕ
  len = (e.hint.len + e.hint.overhead) % u32_mod

  remove_shrink-Lost :
      (done : ℕ)
      → Lost node p u units e (remove_shrink plugs (put_bytes node e.bytes) pos units e) (some done)
  unfolding remove_shrink
  remove_shrink-Lost done = elim (Bool-cases (leb (span node p 1) len || units == e.hint.count)) [
    | inl empty ↦ rw (same_len, empty) (refl, whole-Gone node p e.bytes v lt outside)
    | inr left ↦ elim (Bool-cases (u == 0)) [
      | inl first ↦
          rw (same_len, left, first)
            (
              refl,
              changed node p _ len (span node p 1 - len) e.place.key v lt
                  (shrink-put_key node p u len 1 e.bytes e.place.key v lt part (ground arith)
                    outside)
                  (ground arith) refl,
            )
      | inr other ↦
          rw (same_len, left, other)
            (
              refl,
              changed node p _ len (span node p 1 - len) (node.ih p).key v lt
                  (shrink-Resized node p u len 1 e.bytes v lt part (ground arith) outside)
                  (ground arith) refl,
            )
    ]
  ]

  units_end-Lost :
      (r : Option ℕ)
      → Lost node p u units e (units_end plugs (put_bytes node e.bytes) pos units e r) r
  unfolding units_end
  units_end-Lost none = (
    refl,
    changed node p _ 0 _ (node.ih p).key v lt (written-Resized node p e.bytes v outside)
        (omega arith) (omega arith),
  )
  units_end-Lost (some done) = remove_shrink-Lost done

-- The remove_units of a plugin, which does nothing where there is none.
abbrev pub remove_method : ItemPlugs → ℕ → Method
remove_method plugs pid node place hint =
    units_effect plugs node place hint (plugs.remove_units pid)

-- On an item of a valid node, with a remove_units that writes into its body only, node40_remove
-- of units leaves every other item as it is: after an error of the method the item keeps its
-- length and key; else it has lost the bytes of the hint, with the new key if the first unit
-- went, or is gone when these are all its bytes or all its units.
pub remove-Lost :
    (plugs : ItemPlugs) (node : Node) (p u : ℕ) (hint : TransHint)
    → IsValid node
    → p < node.num_items
    → u ≢ max_uint32
    → plugs.known (node.ih p).pid ≡ true
    → IsConfined (remove_method plugs (node.ih p).pid)
    → KeepsPlace (remove_method plugs (node.ih p).pid)
    → let pos : Pos = record { item = p; unit = u } in
      let place = place_of plugs node pos in
      let e = remove_method plugs (node.ih p).pid node place hint in
      Lost node p u
        (plugs.units (node.ih p).pid node place % u32_mod)
        e
        (remove plugs node pos hint)
        e.result
unfolding remove units_fetched place_of IsConfined KeepsPlace
remove-Lost plugs node p u hint v lt part known confined keeps = rw whole (
    subst (λ r. Lost node p u units e r e.result)
      (sym (ap (units_fetched plugs node pos hint) (fetch_known plugs node pos known)))
      (units_end-Lost plugs node p u units e v lt
        (λ a h.
          confined node place hint a (ground (arith, h, at, bound_mono v p (p + 1) (omega arith))))
        part ((keeps node place hint).1 ∙ at.1 ∙ omega arith) e.result))
  where
    pos : Pos
    pos = record { item = p; unit = u }

    place : Place
    place = place_of plugs node pos

    e : Effect
    e = remove_method plugs (node.ih p).pid node place hint

    units : ℕ
    units = plugs.units (node.ih p).pid node place % u32_mod

    whole : (u == max_uint32) ≡ false
    whole = ground arith

    at : (place.body ≡ bound node p) × (place.len ≡ span node p 1 + 0 - 0)
    at =
        place_of-Resized plugs node node p u 0 0 (node.ih p).key v lt (omega arith)
          (unresized node p)
