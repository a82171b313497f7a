-- ===== src/Node/Insert.antt =====
-- node40_insert and node40_write of a whole item: it lies at its position, and the others around it.
use reiser4progs.Prelude.{
  ℕ, ◌+◌, ◌%◌, ◌≤◌, ◌<◌, ◌≡◌, refl, ◌∙◌, sym, ap, ◌⊎◌, true, Option, none, some, List, [], ◌∷◌,
  ◌++◌, take, drop, length, arith, u16_mod, u32_mod, update_same, length-tabulate, tabulate,
}
use reiser4progs.Node.{Node, Pos, max_uint32}
use reiser4progs.Node.Contents.{items_of, item_at, item_of, bound, IsValid, bound_item, ih_size_le}
use reiser4progs.Node.Space.{expand, len_by_ih}
use reiser4progs.Node.Expand.{HasRoom, expand-Expanded}
use reiser4progs.Node.Splice.{span, Spliced}
use reiser4progs.Node.Spliced
use reiser4progs.Node.Place.{
  Place, place_of, TransHint, Effect, Method, ItemPlugs, fetch_known, put_bytes,
}
use reiser4progs.Node.Modify.{modify, make_room, modify_fetched, modify_end, put_item}
use reiser4progs.Node.Splice.{len_by_ih-span}
use reiser4progs.Node.Single.{single, single_bounds, single-IsValid, new_header, Made-Spliced}

-- One call of a method writes the body of its item only.
unfoldable pub WritesBody : Node → Place → Effect → Type 0
WritesBody node place e =
    (a : ℕ) → (a < place.body) ⊎ (place.body + place.len ≤ a) → e.bytes a ≡ node.bytes a

-- A method of an item writes the body of the item only.
unfoldable pub IsConfined : Method → Type 0
IsConfined method =
    (node : Node) (place : Place) (hint : TransHint) (a : ℕ)
    → (a < place.body) ⊎ (place.body + place.len ≤ a)
    → (method node place hint).bytes a ≡ node.bytes a

-- `node'` has one more item, with this key and plugin and a body of this length.
pub record Inserted (node node' : Node) (p len pid : ℕ) (key : List ℕ) : Type 0 where
  pub node_IsValid : IsValid node'
  pub around :
      items_of node' ≡ take p (items_of node) ++ (item_at node' p ∷ []) ++ drop p (items_of node)
  pub new_key : (item_at node' p).key ≡ key
  pub new_pid : (item_at node' p).pid ≡ pid
  pub no_flags : (item_at node' p).flags ≡ 0
  pub new_len : length (item_at node' p).body ≡ len

module _ (node : Node) (p len pid : ℕ) (key : List ℕ) (hint : TransHint) (v : IsValid node)
    (le : p ≤ node.num_items) (pos_len : 0 < len) (room : HasRoom node len 1) where
  abbrev at_p : Pos
  at_p = record { item = p; unit = max_uint32 }

  made :
      (bytes : ℕ → ℕ)
      → ((a : ℕ)
          → (a < bound node p) ⊎ (bound node p + len ≤ a)
          → bytes a ≡ (expand node at_p len 1).bytes a)
      → Spliced node
          (put_bytes (put_item (expand node at_p len 1) p pid key) bytes)
          p
          (single (new_header pid key) len (λ k. bytes (bound node p + k)) node)
          0
          1
  made bytes outside =
      let e = expand-Expanded node p len 1 v le pos_len (omega arith) room in
      Made-Spliced node (expand node at_p len 1) p len pid key bytes le e.0 e.1 outside

  src_IsValid : (bytes : ℕ → ℕ) → IsValid (single (new_header pid key) len bytes node)
  src_IsValid bytes =
      single-IsValid (new_header pid key) len bytes node refl
        (omega (arith, v.fits, v.small, ih_size_le node.keypol))

  Spliced-Inserted :
      (node' : Node) (bytes : ℕ → ℕ)
      → Spliced node node' p (single (new_header pid key) len bytes node) 0 1
      → pid < u16_mod
      → Inserted node node' p len pid key
  unfolding single items_of tabulate item_at item_of
  Spliced-Inserted node' bytes r small = record {
    node_IsValid =
        Spliced.node-IsValid node node' p src 0 1 v (src_IsValid bytes) le (omega arith)
          (omega arith) r;
    around =
        Spliced.items_of-node node node' p src 0 1 v (src_IsValid bytes) le (omega arith)
          (omega arith) r
        ∙ ap (λ i. take p (items_of node) ++ (i ∷ []) ++ drop p (items_of node)) (sym same);
    new_key = ap (λ i. i.key) same;
    new_pid = ap (λ i. i.pid) same ∙ omega arith;
    no_flags = ap (λ i. i.flags) same;
    new_len =
        ap (λ i. length i.body) same
        ∙ length-tabulate _ _
        ∙ omega (arith, single_bounds (new_header pid key) len bytes node refl);
  }
    where
      src : Node
      src = single (new_header pid key) len bytes node

      same : item_at node' p ≡ item_at src 0
      same =
          ap (item_at node') {y = p + 0} (omega arith)
          ∙ Spliced.item-inside node node' p src 0 1 v (src_IsValid bytes) le (omega arith)
              (omega arith) r 0 (omega arith)

  -- Where the room for the new item lies.
  room_at :
      (node' : Node) (bytes : ℕ → ℕ)
      → Spliced node node' p (single (new_header pid key) len bytes node) 0 1
      → IsValid node' × (bound node' p ≡ bound node p) × (span node' p 1 ≡ len)
  unfolding single
  room_at node' bytes r =
      let src = single (new_header pid key) len bytes node in
      let vs = src_IsValid bytes in
      let begin =
        Spliced.bound-before node node' p src 0 1 v vs le (omega arith) (omega arith) r p
          (omega arith) in
      (
        Spliced.node-IsValid node node' p src 0 1 v vs le (omega arith) (omega arith) r,
        begin,
        omega (
          arith,
          begin,
          Spliced.bound-behind node node' p src 0 1 v vs le (omega arith) (omega arith) r p
              (omega arith),
          single_bounds (new_header pid key) len bytes node refl,
        ),
      )

modify_end-kept :
    (node : Node) (p : ℕ) (key : List ℕ) (r : Option ℕ)
    → (modify_end node (record { item = p; unit = max_uint32 }) key r).0 ≡ node
unfolding modify_end
modify_end-kept node p key none = refl
modify_end-kept node p key (some write) = refl

-- The node after node40_modify of a whole item whose plugin there is.
modify_node :
    (plugs : ItemPlugs) (node : Node) (p : ℕ) (hint : TransHint) (method : Method)
    → plugs.known (hint.plug % u16_mod) ≡ true
    → let pos : Pos = record { item = p; unit = max_uint32 } in
      let grown =
        put_item (expand node pos ((hint.len + hint.overhead) % u32_mod) 1) p hint.plug hint.key in
      (modify plugs node pos hint method).0
      ≡ put_bytes grown (method grown (place_of plugs grown pos) hint).bytes
unfolding modify make_room modify_fetched
modify_node plugs node p hint method known =
    ap (λ f. (modify_fetched grown pos hint method f).0) (fetch_known plugs grown pos known_there)
    ∙ modify_end-kept _ p _ _
  where
    pos : Pos
    pos = record { item = p; unit = max_uint32 }

    room : Node
    room = expand node pos ((hint.len + hint.overhead) % u32_mod) 1

    grown : Node
    grown = put_item room p hint.plug hint.key

    known_there : plugs.known (grown.ih p).pid ≡ true
    known_there =
        ap (λ h. plugs.known h.pid)
          (update_same room.ih p p
            (record (room.ih p) { pid = hint.plug % u16_mod; key = hint.key }) refl)
        ∙ known

-- The node that the method of a new item sees: with the room and the header of the item.
abbrev pub new_item_node : Node → ℕ → TransHint → Node
new_item_node node p hint =
    put_item (expand node (record { item = p; unit = max_uint32 }) (hint.len + hint.overhead) 1) p
      hint.plug hint.key

abbrev pub new_item_effect : ItemPlugs → Node → ℕ → TransHint → Method → Effect
new_item_effect plugs node p hint method =
    let node' = new_item_node node p hint in
    method node' (place_of plugs node' (record { item = p; unit = max_uint32 })) hint

-- In a valid node with room for the body, which is not empty, and the header of a new item of a
-- known plugin, the item goes to any position up to the number of items: node40_modify, if in
-- this call its method leaves the bytes outside the body of the new item as they are, leaves a
-- valid node with the old items around a new one that has the key, the plugin and the length of
-- the hint, and no flags.
pub modify-Inserted :
    (plugs : ItemPlugs) (node : Node) (p : ℕ) (hint : TransHint) (method : Method)
    → IsValid node
    → p ≤ node.num_items
    → 0 < hint.len + hint.overhead
    → HasRoom node (hint.len + hint.overhead) 1
    → hint.plug < u16_mod
    → plugs.known hint.plug ≡ true
    → (let node' = new_item_node node p hint in
        WritesBody node'
          (place_of plugs node' (record { item = p; unit = max_uint32 }))
          (new_item_effect plugs node p hint method))
    → Inserted node
        (modify plugs node (record { item = p; unit = max_uint32 }) hint method).0
        p
        (hint.len + hint.overhead)
        hint.plug
        hint.key
unfolding place_of WritesBody
modify-Inserted plugs node p hint method v le pos_len room small known confined =
    rw
      (
        modify_node plugs node p hint method
            (ap plugs.known {x = hint.plug % u16_mod} (omega arith) ∙ known),
        no_wrap,
      )
      (Spliced-Inserted node p len hint.plug hint.key hint v le (omega arith) room _ _ r small)
  where
    len : ℕ
    len = hint.len + hint.overhead

    no_wrap : (hint.len + hint.overhead) % u32_mod ≡ hint.len + hint.overhead
    no_wrap = omega (arith, v.fits, v.small)

    pos : Pos
    pos = record { item = p; unit = max_uint32 }

    grown : Node
    grown = put_item (expand node pos len 1) p hint.plug hint.key

    spliced :
        Spliced node grown p
          (single (new_header hint.plug hint.key) len (λ k. grown.bytes (bound node p + k)) node)
          0
          1
    spliced =
        made node p len hint.plug hint.key hint v le (omega arith) room grown.bytes (λ a h. refl)

    there : IsValid grown × (bound grown p ≡ bound node p) × (span grown p 1 ≡ len)
    there = room_at node p len hint.plug hint.key hint v le (omega arith) room grown _ spliced

    body : (grown.ih p).offset ≡ bound node p
    body = sym (bound_item grown p (omega (arith, spliced.grown))) ∙ there.1

    body_len : len_by_ih grown pos grown.num_items ≡ len
    body_len = len_by_ih-span grown p max_uint32 there.0 (omega (arith, spliced.grown)) ∙ there.2

    e : Effect
    e = method grown (place_of plugs grown pos) hint

    r :
        Spliced node
          (put_bytes grown e.bytes)
          p
          (single (new_header hint.plug hint.key) len (λ k. e.bytes (bound node p + k)) node)
          0
          1
    r =
        made node p len hint.plug hint.key hint v le (omega arith) room e.bytes
          (λ a h. confined a (ground (arith, h, body, body_len)))
