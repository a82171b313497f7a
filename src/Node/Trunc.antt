-- ===== src/Node/Trunc.antt =====
-- node40_trunc: the item gets shorter, or goes.
use reiser4progs.Prelude.{
  ℕ, ◌+◌, ◌-◌, ◌%◌, ◌≤◌, ◌<◌, ◌≡◌, refl, ◌∙◌, sym, ap, ap₂, inl, inr, ◌⊎◌, true, Bool-cases, Option,
  none, some, List, ◌++◌, take, drop, ◌==◌, if◌then◌else◌, leb, arith, subst, u32_mod, tabulate_ext,
  take-tabulate, drop-tabulate,
}
use reiser4progs.Node.{Node, Pos, max_uint32}
use reiser4progs.Node.Contents.{items_of, item_at, bound, IsValid, bound_mono}
use reiser4progs.Node.Space.{shrink}
use reiser4progs.Node.Splice.{span}
use reiser4progs.Node.Shrink.{Cut, shrink-Cut}
use reiser4progs.Node.Remaining
use reiser4progs.Node.Insert.{IsConfined}
use reiser4progs.Node.Resize.{
  Resized, put_key-Resized, put_bytes-Resized, shrink-Resized, put_bytes-IsValid, bound-put_bytes,
}
use reiser4progs.Node.Changed.{Changed, Resized-Changed}
use reiser4progs.Node.Place.{
  Place, place_of, TransHint, Effect, Method, ItemPlugs, fetch_known, put_bytes, put_key,
}
use reiser4progs.Node.Modify.{trunc, trunc_fetched, trunc_end, trunc_shrink}
use reiser4progs.Node.Copy.{with_offset}
use reiser4progs.Node.Units.{place_of-Resized}

-- A method leaves the position and the length in its place alone.
unfoldable pub KeepsPlace : Method → Type 0
KeepsPlace method =
    (node : Node) (place : Place) (hint : TransHint)
    → let e = method node place hint in
      (e.place.pos.item ≡ place.pos.item) × (e.place.len ≡ place.len)

-- Without the whole item `p`.
abbrev pub Gone : Node → Node → ℕ → Type 0
Gone node node' p =
    IsValid node' × (items_of node' ≡ take p (items_of node) ++ drop (p + 1) (items_of node))

pub unresized : (node : Node) (p : ℕ) → Resized node node p 0 0 (node.ih p).key
unresized node p = record {
  same_count = refl;
  start = refl;
  left = refl;
  same_size = refl;
  same_pol = refl;
  before = λ j lt. refl;
  at = refl;
  behind = λ j from lt. ap (with_offset (node.ih j)) (omega arith);
  low = λ a lt. refl;
  high = λ a from lt. ap node.bytes (omega arith);
}

-- A method that writes the body of item `p`, and does not change its size.
pub written-Resized :
    (node : Node) (p : ℕ) (bytes : ℕ → ℕ)
    → IsValid node
    → ((a : ℕ) → (a < bound node p) ⊎ (bound node (p + 1) ≤ a) → bytes a ≡ node.bytes a)
    → Resized node (put_bytes node bytes) p 0 0 (node.ih p).key
written-Resized node p bytes v outside =
    put_bytes-Resized bytes (unresized node p) v (omega arith)
      (λ a h. outside a (ground (arith, h)))

-- The other items do not see the bytes of this one.
items-around :
    (node : Node) (p : ℕ) (bytes : ℕ → ℕ)
    → IsValid node
    → p < node.num_items
    → ((a : ℕ) → (a < bound node p) ⊎ (bound node (p + 1) ≤ a) → bytes a ≡ node.bytes a)
    → take p (items_of (put_bytes node bytes)) ++ drop (p + 1) (items_of (put_bytes node bytes))
      ≡ take p (items_of node) ++ drop (p + 1) (items_of node)
unfolding items_of
items-around node p bytes v lt outside =
    ap₂ (λ xs ys. xs ++ ys)
      (take-tabulate p node.num_items (item_at (put_bytes node bytes)) (omega arith)
        ∙ tabulate_ext p (item_at (put_bytes node bytes)) (item_at node)
            (λ j below. c.others j (omega arith) (omega arith))
        ∙ sym (take-tabulate p node.num_items (item_at node) (omega arith)))
      (drop-tabulate (p + 1) node.num_items (item_at (put_bytes node bytes)) (omega arith)
        ∙ tabulate_ext (node.num_items - (p + 1)) (λ i. item_at (put_bytes node bytes) (p + 1 + i))
            (λ i. item_at node (p + 1 + i))
            (λ i below. c.others (p + 1 + i) (omega arith) (omega arith))
        ∙ sym (drop-tabulate (p + 1) node.num_items (item_at node) (omega arith)))
  where
    c : Changed node (put_bytes node bytes) p (span node p 1 + 0 - 0) (node.ih p).key
    c =
        Resized-Changed node (put_bytes node bytes) p 0 0 (node.ih p).key v lt (omega arith)
          (written-Resized node p bytes v outside)

pub whole-Gone :
    (node : Node) (p : ℕ) (bytes : ℕ → ℕ)
    → IsValid node
    → p < node.num_items
    → ((a : ℕ) → (a < bound node p) ⊎ (bound node (p + 1) ≤ a) → bytes a ≡ node.bytes a)
    → Gone node
        (shrink (put_bytes node bytes) (record { item = p; unit = max_uint32 }) (span node p 1) 1)
        p
whole-Gone node p bytes v lt outside = rw (sym same_span) (
  Remaining.node-IsValid (put_bytes node bytes) _ p 1 v' (omega arith) c,
  Remaining.items_of-node (put_bytes node bytes) _ p 1 v' (omega arith) c
      ∙ items-around node p bytes v lt outside,
)
  where
    v' : IsValid (put_bytes node bytes)
    v' = put_bytes-IsValid node bytes v

    same_span : span (put_bytes node bytes) p 1 ≡ span node p 1
    same_span = omega (arith, bound-put_bytes node bytes p, bound-put_bytes node bytes (p + 1))

    c :
        Cut
          (put_bytes node bytes)
          (shrink
            (put_bytes node bytes)
            (record { item = p; unit = max_uint32 })
            (span (put_bytes node bytes) p 1)
            1)
          p
          1
    c = shrink-Cut (put_bytes node bytes) p 1 v' (omega arith)

-- What truncation makes of item `p`, after the method has left `e`: nothing but its bytes for an error,
-- else the item has lost the bytes of the hint, or is gone with the last of them.
abbrev pub Truncated : Node → Node → ℕ → Effect → Option ℕ → Type 0
Truncated node node' p e none = Changed node node' p (span node p 1) (node.ih p).key
Truncated node node' p e (some count) =
    let len = (e.hint.overhead + e.hint.len) % u32_mod in
    if len == 0
    then Changed node node' p (span node p 1) e.place.key
    else if leb (span node p 1) len
    then Gone node node' p
    else Changed node node' p (span node p 1 - len) e.place.key

pub changed :
    (node : Node) (p : ℕ) (node' : Node) (cut n : ℕ) (key : List ℕ)
    → IsValid node
    → p < node.num_items
    → Resized node node' p cut 0 key
    → cut ≤ span node p 1
    → span node p 1 - cut ≡ n
    → Changed node node' p n key
changed node p node' cut n key v lt r le left =
    subst (λ n. Changed node node' p n key) (omega arith)
      (Resized-Changed node node' p cut 0 key v lt le r)

module _ (node : Node) (p : ℕ) (e : Effect) (v : IsValid node) (lt : p < node.num_items)
    (outside : (a : ℕ) → (a < bound node p) ⊎ (bound node (p + 1) ≤ a) → e.bytes a ≡ node.bytes a)
    (item : e.place.pos.item ≡ p) (same_len : e.place.len ≡ span node p 1) where
  abbrev len : ℕ
  len = (e.hint.overhead + e.hint.len) % u32_mod

  written : Resized node (put_bytes node e.bytes) p 0 0 (node.ih p).key
  written = written-Resized node p e.bytes v outside

  shorter :
      (count : ℕ)
      → len < span node p 1
      → Changed node
          (put_key
            (shrink (put_bytes node e.bytes) (record { item = p; unit = 0 }) len count)
            p
            e.place.key)
          p
          (span node p 1 - len)
          e.place.key
  shorter count less =
      changed node p _ len (span node p 1 - len) e.place.key v lt
        (put_key-Resized e.place.key
          (shrink-Resized node p 0 len count e.bytes v lt (omega arith) (omega arith) outside))
        (omega arith) refl

  trunc_shrink-Truncated :
      (count : ℕ) → Truncated node (trunc_shrink (put_bytes node e.bytes) e count) p e (some count)
  unfolding trunc_shrink
  trunc_shrink-Truncated count = elim (Bool-cases (len == 0)) [
    | inl none_cut ↦
        rw (none_cut, item)
          (changed node p _ 0 _ e.place.key v lt (put_key-Resized e.place.key written) (omega arith)
            (omega arith))
    | inr some_cut ↦ elim (Bool-cases (leb (span node p 1) len)) [
      | inl all ↦ rw (some_cut, item, same_len, all) (whole-Gone node p e.bytes v lt outside)
      | inr part ↦ rw (some_cut, item, same_len, part) (shorter _ (ground arith))
    ]
  ]

  trunc_end-Truncated :
      (r : Option ℕ) → Truncated node (trunc_end (put_bytes node e.bytes) e r).0 p e r
  unfolding trunc_end
  trunc_end-Truncated none =
      changed node p _ 0 _ (node.ih p).key v lt written (omega arith) (omega arith)
  trunc_end-Truncated (some count) = trunc_shrink-Truncated count

-- On an item of a valid node, with a trunc_units that writes into its body only, node40_trunc
-- leaves every other item as it is: for an error the item keeps its length and key; else it has
-- lost the bytes of the hint and has the key of its place, or is gone when these are all its
-- bytes.
pub trunc-Truncated :
    (plugs : ItemPlugs) (node : Node) (p u : ℕ) (hint : TransHint)
    → IsValid node
    → p < node.num_items
    → plugs.known (node.ih p).pid ≡ true
    → IsConfined (plugs.trunc_units (node.ih p).pid)
    → KeepsPlace (plugs.trunc_units (node.ih p).pid)
    → let pos : Pos = record { item = p; unit = u } in
      let e = plugs.trunc_units (node.ih p).pid node (place_of plugs node pos) hint in
      Truncated node (trunc plugs node pos hint).0 p e e.result
unfolding trunc trunc_fetched place_of IsConfined KeepsPlace
trunc-Truncated plugs node p u hint v lt known confined keeps =
    subst (λ t. Truncated node t.0 p e e.result)
      (sym (ap (trunc_fetched plugs node hint) (fetch_known plugs node pos known)))
      (trunc_end-Truncated node p e v lt
        (λ a h.
          confined node place hint a (ground (arith, h, at, bound_mono v p (p + 1) (omega arith))))
        (keeps node place hint).0 ((keeps node place hint).1 ∙ at.1 ∙ omega arith) e.result)
  where
    pos : Pos
    pos = record { item = p; unit = u }

    place : Place
    place = place_of plugs node pos

    e : Effect
    e = plugs.trunc_units (node.ih p).pid node place hint

    at : (place.body ≡ bound node p) × (place.len ≡ span node p 1 + 0 - 0)
    at =
        place_of-Resized plugs node node p u 0 0 (node.ih p).key v lt (omega arith)
          (unresized node p)
