-- ===== src/Node.antt =====
-- plugin/node/node40: the leaves and the inner nodes of the tree. A block holds the node header, the
-- bodies of the items one behind the other, free space, and at its end the item headers, the first one
-- last. The model keeps the fields of the node header as numbers, the item headers as an array by item,
-- and the bytes of the block as a function of their offset; so a body that runs over into the item
-- headers is outside the model, and the theorems ask for room where the callers provide it. The key in an
-- item header is the list of its words. A function that changes `*entity` returns the new node.
pub mod Contents
pub mod Space
pub mod Loops
pub mod Expand
pub mod Copy
pub mod Splice
pub mod Spliced
pub mod Shrink
pub mod Remaining
pub mod Shift
pub mod Predict
pub mod Greedy
pub mod Move
pub mod Place
pub mod Modify
pub mod Lookup
pub mod Single
pub mod Insert
pub mod Resize
pub mod Grow
pub mod Rekey
pub mod Changed
pub mod Units
pub mod Trunc
pub mod Remove
pub mod Unite
pub mod Neighbours
pub mod Passed
pub mod Merge
mod Tests
use reiser4progs.Prelude.{
  ℕ, ◌+◌, ◌-◌, ◌*◌, ◌%◌, Bool, true, false, Option, none, some, List, ◌==◌, if◌then◌else◌, u32_mod,
  u16_mod, u8_mod, update, length,
}

-- item_header3_t and item_header4_t
pub record ItemHeader : Type 0 where
  pub key : List ℕ
  pub offset : ℕ
  pub flags : ℕ
  pub pid : ℕ

-- reiser4_node_t with the node40_header_t of its block.
pub record Node : Type 0 where
  pub pid : ℕ
  pub num_items : ℕ
  pub free_space : ℕ
  pub free_space_start : ℕ
  pub magic : ℕ
  pub mkfs_id : ℕ
  pub flush_id : ℕ
  pub level : ℕ
  pub ih : ℕ → ItemHeader
  pub bytes : ℕ → ℕ
  pub block_size : ℕ
  pub keypol : ℕ
  pub dirty : Bool
  pub state : ℕ

-- pos_t
pub record Pos : Type 0 where
  pub item : ℕ
  pub unit : ℕ

abbrev pub max_uint32 : ℕ
max_uint32 = u32_mod - 1

abbrev pub node40_magic : ℕ
node40_magic = 0x52344653

-- sizeof(node40_header_t)
abbrev pub node40_header_size : ℕ
node40_header_size = 28

-- Differences of uint32_t and of uint16_t, and sums.
abbrev pub sub32 : ℕ → ℕ → ℕ
sub32 a b = (a + u32_mod - b) % u32_mod

abbrev pub sub16 : ℕ → ℕ → ℕ
sub16 a b = (a + u32_mod - b) % u16_mod

abbrev pub add16 : ℕ → ℕ → ℕ
add16 a b = (a + b) % u16_mod

abbrev pub key_size : ℕ → ℕ
key_size pol = if pol == 3 then 24 else 32

abbrev pub ih_size : ℕ → ℕ
ih_size pol = if pol == 3 then 30 else 38

-- ih_inc_offset and ih_dec_offset
abbrev pub ih_inc_offset : ItemHeader → ℕ → ItemHeader
ih_inc_offset h val = record h { offset = add16 h.offset val }

abbrev pub ih_dec_offset : ItemHeader → ℕ → ItemHeader
ih_dec_offset h val = record h { offset = sub16 h.offset val }

unfoldable pub mkdirty : Node → Node
mkdirty node = record node { dirty = true }

unfoldable pub mkclean : Node → Node
mkclean node = record node { dirty = false }

unfoldable pub isdirty : Node → Bool
isdirty node = node.dirty

unfoldable pub get_state : Node → ℕ
get_state node = node.state

unfoldable pub set_state : Node → ℕ → Node
set_state node state = record node { state = state }

unfoldable pub get_level : Node → ℕ
get_level node = node.level

unfoldable pub set_level : Node → ℕ → Node
unfolding mkdirty
set_level node level = mkdirty (record node { level = level % u8_mod })

unfoldable pub get_mstamp : Node → ℕ
get_mstamp node = node.mkfs_id

unfoldable pub set_mstamp : Node → ℕ → Node
unfolding mkdirty
set_mstamp node stamp = mkdirty (record node { mkfs_id = stamp })

unfoldable pub get_fstamp : Node → ℕ
get_fstamp node = node.flush_id

unfoldable pub set_fstamp : Node → ℕ → Node
unfolding mkdirty
set_fstamp node stamp = mkdirty (record node { flush_id = stamp })

unfoldable pub items : Node → ℕ
items node = node.num_items

unfoldable pub space : Node → ℕ
space node = node.free_space

unfoldable pub overhead : Node → ℕ
overhead node = ih_size node.keypol

unfoldable pub maxspace : Node → ℕ
maxspace node = (node.block_size + u32_mod - node40_header_size - ih_size node.keypol) % u16_mod

-- node40_prepare: a new entity for the block that `block` has, with the fields in its bytes and its
-- dirty flag. The state is that of the aal_calloc, and keys are as long as the plugin has them.
unfoldable pub prepare : Bool → Node → ℕ → Option Node
prepare mem block bodysize =
    if mem then some (record block { keypol = bodysize; state = 0 }) else none

-- node40_init_common, of a node plugin with this id, magic and header size.
unfoldable pub init_common : Bool → Node → ℕ → ℕ → ℕ → ℕ → ℕ → Option Node
unfolding prepare
init_common mem block bodysize level plug_id magic header_size = elim (prepare mem block bodysize) [
  | none ↦ none
  | some node ↦ some (record node {
    num_items = 0;
    level = level % u8_mod;
    magic = magic;
    pid = plug_id;
    free_space_start = header_size % u16_mod;
    free_space = sub16 node.block_size header_size;
  })
]

-- node40_init; NODE_REISER40_ID is 0.
unfoldable pub init : Bool → Node → ℕ → ℕ → Option Node
unfolding init_common
init mem block bodysize level =
    init_common mem block bodysize level 0 node40_magic node40_header_size

-- node40_open: the magic is checked.
unfoldable pub open_node : Bool → Node → ℕ → Option Node
unfolding prepare
open_node mem block bodysize = elim (prepare mem block bodysize) [
  | none ↦ none
  | some node ↦ if node.magic == node40_magic then some node else none
]

-- node40_sync, after an aal_block_write with the result `written`.
unfoldable pub sync : ℕ → Node → ℕ × Node
unfolding mkclean
sync written node = if written == 0 then (0, mkclean node) else (written, node)

unfoldable pub get_key : Node → Pos → List ℕ
get_key node pos = (node.ih pos.item).key

unfoldable pub set_key : Node → Pos → List ℕ → Node
unfolding mkdirty
set_key node pos key =
    mkdirty (record node { ih = update node.ih pos.item (record (node.ih pos.item) { key = key }) })

unfoldable pub get_flags : Node → ℕ → ℕ
get_flags node pos = (node.ih pos).flags

unfoldable pub set_flags : Node → ℕ → ℕ → Node
unfolding mkdirty
set_flags node pos flags =
    mkdirty
      (record node { ih = update node.ih pos (record (node.ih pos) { flags = flags % u16_mod }) })
