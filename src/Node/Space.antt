-- ===== src/Node/Space.antt =====
-- node40_len, _size, _expand, _shrink and _copy: how the items of a node make and take room.
use reiser4progs.Prelude.{
  ℕ, zero, suc, ◌+◌, ◌-◌, ◌*◌, ◌%◌, ltb, ◌==◌, if◌then◌else◌, ◌&&◌, u32_mod, u16_mod, update,
  memcpy, memmove,
}
use reiser4progs.Node.{
  ItemHeader, Node, Pos, max_uint32, sub32, sub16, add16, ih_size, ih_inc_offset, ih_dec_offset,
  mkdirty,
}

-- node40_len_by_ih of the item at `pos`.
unfoldable pub len_by_ih : Node → Pos → ℕ → ℕ
len_by_ih node pos items =
    if pos.item + 1 == items
    then sub16 node.free_space_start (node.ih pos.item).offset
    else sub16 (node.ih (pos.item + 1)).offset (node.ih pos.item).offset

unfoldable pub len : Node → Pos → ℕ
unfolding len_by_ih
len node pos = len_by_ih node pos node.num_items

unfoldable pub size : Node → Pos → ℕ → ℕ
size node pos count =
    sub32
      (if ltb (pos.item + count) node.num_items
        then (node.ih (pos.item + count)).offset
        else node.free_space_start)
      (node.ih pos.item).offset

-- The loops that move offsets, `n` items from item `i` on.
unfoldable pub inc_offsets : (ℕ → ItemHeader) → ℕ → ℕ → ℕ → ℕ → ItemHeader
inc_offsets ih len i zero = ih
inc_offsets ih len i (suc n) = inc_offsets (update ih i (ih_inc_offset (ih i) len)) len (i + 1) n

unfoldable pub dec_offsets : (ℕ → ItemHeader) → ℕ → ℕ → ℕ → ℕ → ItemHeader
dec_offsets ih len i zero = ih
dec_offsets ih len i (suc n) = dec_offsets (update ih i (ih_dec_offset (ih i) len)) len (i + 1) n

-- Room of `len` bytes for `count` new items at `pos`, or for units at the end of its item.
unfoldable pub expand : Node → Pos → ℕ → ℕ → Node
unfolding mkdirty
expand node pos len count =
    let headers = count * ih_size node.keypol in
    let items = node.num_items in
    let insert = pos.unit == max_uint32 in
    let item = (pos.item + (if insert then 0 else 1)) % u32_mod in
    let inside = ltb item items in
    let offset = if inside then (node.ih item).offset else node.free_space_start in
    let bytes =
      if inside
      then memmove node.bytes (offset + len) offset (sub32 node.free_space_start offset)
      else node.bytes in
    let moved = if inside then inc_offsets node.ih len item (items - item) else node.ih in
    let ih = if inside && insert then memmove moved (item + count) item (items - item) else moved in
    if len == 0
    then node
    else if insert
    then mkdirty (record node {
      bytes = bytes;
      ih = update ih item (record (ih item) { flags = 0; offset = offset % u16_mod });
      free_space_start = add16 node.free_space_start len;
      free_space = sub16 (sub16 node.free_space len) headers;
      num_items = add16 items count;
    })
    else mkdirty (record node {
      bytes = bytes;
      ih = ih;
      free_space_start = add16 node.free_space_start len;
      free_space = sub16 node.free_space len;
    })

-- The bytes from `src` to the item headers.
abbrev pub tail_size : Node → ℕ → ℕ
tail_size node src = sub32 (node.block_size + u32_mod - node.num_items * ih_size node.keypol) src

-- `count` items, or `len` bytes at the end of one, are cut out.
unfoldable pub shrink : Node → Pos → ℕ → ℕ → Node
unfolding mkdirty len_by_ih
shrink node pos len count =
    let headers = count * ih_size node.keypol in
    let items = node.num_items in
    let inside = ltb (pos.item + count) items in
    let offset = (node.ih pos.item).offset in
    let src = offset + len_by_ih node pos items in
    if pos.unit == max_uint32
    then mkdirty (record node {
      bytes =
          if inside
          then memmove node.bytes offset (offset + len) (tail_size node (offset + len))
          else node.bytes;
      ih =
          if inside
          then dec_offsets
              (memmove node.ih pos.item (pos.item + count) (items - (pos.item + count))) len
              pos.item (items - count - pos.item)
          else node.ih;
      num_items = sub16 items count;
      free_space = add16 node.free_space (len + headers);
      free_space_start = sub16 node.free_space_start len;
    })
    else mkdirty (record node {
      bytes = memmove node.bytes (src - len) src (tail_size node src);
      ih = dec_offsets node.ih len (pos.item + 1) (items - (pos.item + 1));
      free_space = add16 node.free_space len;
      free_space_start = sub16 node.free_space_start len;
    })

-- The loop of node40_copy over `n` new headers from item `i` on; `last` is the last item.
unfoldable pub copy_offsets : (ℕ → ItemHeader) → ℕ → ℕ → ℕ → ℕ → ℕ → ℕ → ItemHeader
copy_offsets ih fss last offset i zero = ih
copy_offsets ih fss last offset i (suc n) =
    let set = update ih i (record (ih i) { offset = offset % u16_mod }) in
    copy_offsets set fss last
      (if i == last
        then (offset + sub32 fss (set i).offset) % u32_mod
        else (offset + sub32 (set (i + 1)).offset (ih i).offset) % u32_mod)
      (i + 1) n

-- Copies `count` items into the room that node40_expand made for them.
unfoldable pub copy : Node → Pos → Node → Pos → ℕ → Node
unfolding mkdirty size
copy dst dst_pos src src_pos count =
    let items = dst.num_items in
    let fss = dst.free_space_start in
    let len = size src src_pos count in
    let body =
      if ltb dst_pos.item (sub32 items count)
      then (dst.ih dst_pos.item).offset
      else sub32 fss len in
    mkdirty (record dst {
      bytes = memcpy dst.bytes body src.bytes (src.ih src_pos.item).offset len;
      ih =
          copy_offsets (memcpy dst.ih dst_pos.item src.ih src_pos.item count) fss (sub32 items 1)
            body dst_pos.item count;
    })
