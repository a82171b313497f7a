-- ===== src/Node/Units.antt =====
-- node40_insert, _write and _trunc of units: they change one item.
use reiser4progs.Prelude.{
  ℕ, ◌+◌, ◌-◌, ◌%◌, ◌≤◌, ◌<◌, ◌≡◌, ◌≢◌, ◌∙◌, sym, ap, inl, inr, true, false, Bool-cases, Option,
  none, some, List, ◌==◌, if◌then◌else◌, arith, subst, u32_mod,
}
use reiser4progs.Node.{Node, Pos, max_uint32}
use reiser4progs.Node.Contents.{bound, IsValid, bound_item, bound_mono, valid_bounds}
use reiser4progs.Node.Space.{expand}
use reiser4progs.Node.Splice.{span}
use reiser4progs.Node.Insert.{WritesBody}
use reiser4progs.Node.Splice.{len_by_ih-span}
use reiser4progs.Node.Resize.{Resized, put_key-Resized, put_bytes-Resized}
use reiser4progs.Node.Grow.{expand-Resized}
use reiser4progs.Node.Changed.{Changed, Resized-Changed, bound-before, bound-behind}
use reiser4progs.Node.Place.{
  Place, place_of, TransHint, Effect, Method, ItemPlugs, fetch, fetch_known, put_bytes,
}
use reiser4progs.Node.Modify.{modify, make_room, modify_fetched, modify_end}

-- The key of an item after a method that has returned `r`.
abbrev pub keyed : ℕ → List ℕ → List ℕ → Option ℕ → List ℕ
keyed unit old new none = old
keyed unit old new (some done) = if unit == 0 then new else old

modify_end-Resized :
    (old node : Node) (p u grow : ℕ) (key new : List ℕ) (r : Option ℕ)
    → Resized old node p 0 grow key
    → Resized old
        (modify_end node (record { item = p; unit = u }) new r).0
        p
        0
        grow
        (keyed u key new r)
unfolding modify_end
modify_end-Resized old node p u grow key new none e = e
modify_end-Resized old node p u grow key new (some write) e = elim (Bool-cases (u == 0)) [
  | inl first ↦ rw first (put_key-Resized new e)
  | inr other ↦ rw other e
]

-- What the method of the item does, once there is room for the units.
abbrev pub modify_effect : ItemPlugs → Node → Pos → TransHint → Method → Effect
modify_effect plugs node pos hint method =
    let node' = expand node pos (hint.len + hint.overhead) 1 in
    method node' (place_of plugs node' pos) hint

-- The place of an item that was resized, in the node with its new size.
pub place_of-Resized :
    (plugs : ItemPlugs) (old node : Node) (p u cut grow : ℕ) (key : List ℕ)
    → IsValid old
    → p < old.num_items
    → cut ≤ span old p 1
    → Resized old node p cut grow key
    → let place = place_of plugs node (record { item = p; unit = u }) in
      (place.body ≡ bound old p) × (place.len ≡ span old p 1 + grow - cut)
unfolding place_of
place_of-Resized plugs old node p u cut grow key v lt le r = (
  sym (bound_item node p inside) ∙ bound-before old node p cut grow key v lt le r p (omega arith),
  len_by_ih-span node p u (Resized-Changed old node p cut grow key v lt le r).node_IsValid inside
      ∙ omega (
        arith,
        bound-before old node p cut grow key v lt le r p (omega arith),
        bound-behind old node p cut grow key v lt le r (p + 1) (omega arith),
        bound_mono v p (p + 1) (omega arith),
      ),
)
  where
    inside : p < node.num_items
    inside = omega (arith, r.same_count)

make_room-expand :
    (node : Node) (p u : ℕ) (hint : TransHint)
    → u ≢ max_uint32
    → hint.len + hint.overhead < u32_mod
    → let pos : Pos = record { item = p; unit = u } in
      make_room node pos hint ≡ expand node pos (hint.len + hint.overhead) 1
unfolding make_room
make_room-expand node p u hint units small = rw (no_wrap, whole)
  where
    no_wrap : (hint.len + hint.overhead) % u32_mod ≡ hint.len + hint.overhead
    no_wrap = omega arith

    whole : (u == max_uint32) ≡ false
    whole = ground arith

-- On an item of a known plugin in a valid node with room for the bytes of the hint, at least one,
-- node40_modify of units, if in this call its method leaves the bytes outside the body of the
-- longer item as they are, leaves a valid node in which every other item is as it was, and this
-- one is longer by these bytes; its key is new only if the first unit is and the method succeeds.
pub modify-Changed :
    (plugs : ItemPlugs) (node : Node) (p u : ℕ) (hint : TransHint) (method : Method)
    → IsValid node
    → p < node.num_items
    → u ≢ max_uint32
    → 0 < hint.len + hint.overhead
    → hint.len + hint.overhead ≤ node.free_space
    → plugs.known (node.ih p).pid ≡ true
    → (let node' = expand node (record { item = p; unit = u }) (hint.len + hint.overhead) 1 in
        WritesBody node'
          (place_of plugs node' (record { item = p; unit = u }))
          (modify_effect plugs node (record { item = p; unit = u }) hint method))
    → let pos : Pos = record { item = p; unit = u } in
      let e = modify_effect plugs node pos hint method in
      Changed node
        (modify plugs node pos hint method).0
        p
        (span node p 1 + (hint.len + hint.overhead))
        (keyed u (node.ih p).key e.place.key e.result)
unfolding modify modify_fetched WritesBody
modify-Changed plugs node p u hint method v lt units pos_len room known confined = rw same (
    subst (λ n. Changed node after.0 p n (keyed u (node.ih p).key e.place.key e.result))
      (omega arith)
      (Resized-Changed node after.0 p 0 len _ v lt (omega arith) (
        modify_end-Resized node (put_bytes node' e.bytes) p u len (node.ih p).key e.place.key
          e.result
          (put_bytes-Resized e.bytes r v (omega arith)
            (λ a h. confined a (ground (arith, h, at, bound_mono v p (p + 1) (omega arith))))))))
  where
    len : ℕ
    len = hint.len + hint.overhead

    pos : Pos
    pos = record { item = p; unit = u }

    node' : Node
    node' = expand node pos len 1

    r : Resized node node' p 0 len (node.ih p).key
    r = expand-Resized node p u len 1 v lt units pos_len room

    place : Place
    place = place_of plugs node' pos

    at : (place.body ≡ bound node p) × (place.len ≡ span node p 1 + len - 0)
    at = place_of-Resized plugs node node' p u 0 len (node.ih p).key v lt (omega arith) r

    e : Effect
    e = method node' place hint

    after : Node × Option ℕ
    after = modify_end (put_bytes node' e.bytes) pos e.place.key e.result

    same : (modify plugs node pos hint method).0 ≡ after.0
    same =
        ap (λ n. (modify_fetched n pos hint method (fetch plugs n pos)).0)
          (make_room-expand node p u hint units (omega (arith, valid_bounds v)))
        ∙ ap (λ f. (modify_fetched node' pos hint method f).0)
            (fetch_known plugs node' pos (ap (λ h. plugs.known h.pid) r.at ∙ known))
