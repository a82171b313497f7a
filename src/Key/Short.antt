-- ===== src/Key/Short.antt =====
-- plugin/key/key_short: keys of three elements, without an ordering. The conventions are those of the
-- large keys.
pub mod Fields
pub mod Names
use reiser4progs.Prelude.{
  ℕ, zero, suc, ◌+◌, ◌-◌, ◌*◌, ◌%◌, ◌^◌, Bool, true, false, not, Option, none, some, List, [], ◌∷◌,
  ◌++◌, ltb, leb, ◌==◌, if◌then◌else◌, ◌&&◌, length, drop, get_or, bit_and, bit_or, u64_mod,
  u16_mod, u8_mod,
}
use reiser4progs.Aux.Search.{Comparison, equal}
use reiser4progs.Aux.Names.{pack_string, unpack_string}
use reiser4progs.Key.{
  type2minor, minor2type, get_field, set_field, comp_el, first_of, key_filename_type,
  key_filename_minor,
}
use reiser4progs.Key.Fields.{locality_mask, type_mask, full_mask, objectid_mask, hash_mask}

-- key_short_t
pub record KeyShort : Type 0 where
  pub el0 : ℕ
  pub el1 : ℕ
  pub el2 : ℕ

abbrev pub objectid_chars : ℕ
objectid_chars = 7

abbrev pub offset_chars : ℕ
offset_chars = 8

abbrev pub hashed_name_mask : ℕ
hashed_name_mask = 0x0100000000000000

abbrev pub fibre_mask : ℕ
fibre_mask = 0xff00000000000000

abbrev pub fibre_bits : ℕ → ℕ
fibre_bits fibre = fibre % u8_mod * 2 ^ 57 % u64_mod

-- The body after aal_memset(key, 0, sizeof(*key)), which is also the minimal key.
abbrev pub minimal : KeyShort
minimal = record { el0 = 0; el1 = 0; el2 = 0 }

abbrev pub maximal : KeyShort
maximal = record { el0 = full_mask; el1 = full_mask; el2 = full_mask }

unfoldable pub get_minor : KeyShort → ℕ
get_minor key = get_field type_mask 0 key.el0

unfoldable pub set_minor : KeyShort → ℕ → KeyShort
set_minor key minor = record key { el0 = set_field type_mask 0 key.el0 minor }

unfoldable pub set_type : KeyShort → ℕ → KeyShort
set_type key type = set_minor key (type2minor type)

unfoldable pub get_type : KeyShort → ℕ
get_type key = minor2type (get_minor key)

unfoldable pub set_locality : KeyShort → ℕ → KeyShort
set_locality key locality = record key { el0 = set_field locality_mask 4 key.el0 locality }

unfoldable pub get_locality : KeyShort → ℕ
get_locality key = get_field locality_mask 4 key.el0

-- A short key has no ordering.
unfoldable pub set_ordering : KeyShort → ℕ → KeyShort
set_ordering key ordering = key

unfoldable pub get_ordering : KeyShort → ℕ
get_ordering key = 0

unfoldable pub set_objectid : KeyShort → ℕ → KeyShort
set_objectid key objectid = record key { el1 = set_field objectid_mask 0 key.el1 objectid }

unfoldable pub get_objectid : KeyShort → ℕ
get_objectid key = get_field objectid_mask 0 key.el1

unfoldable pub set_fobjectid : KeyShort → ℕ → KeyShort
set_fobjectid key objectid = record key { el1 = set_field full_mask 0 key.el1 objectid }

unfoldable pub get_fobjectid : KeyShort → ℕ
get_fobjectid key = get_field full_mask 0 key.el1

unfoldable pub set_offset : KeyShort → ℕ → KeyShort
set_offset key offset = record key { el2 = set_field full_mask 0 key.el2 offset }

unfoldable pub get_offset : KeyShort → ℕ
get_offset key = get_field full_mask 0 key.el2

unfoldable pub set_hash : KeyShort → ℕ → KeyShort
set_hash key hash = record key { el2 = set_field hash_mask 8 key.el2 hash }

unfoldable pub get_hash : KeyShort → ℕ
get_hash key = get_field hash_mask 8 key.el2

unfoldable pub hashed : KeyShort → Bool
hashed key = not (bit_and (get_fobjectid key) hashed_name_mask == 0)

-- The name, or NULL for a hashed one.
unfoldable pub get_name : KeyShort → Option (List ℕ)
get_name key =
    if hashed key
    then none
    else if get_fobjectid key == 0 && get_offset key == 0
    then some (b'.' ∷ [])
    else some (
        unpack_string (bit_and (get_fobjectid key) (u64_mod - 1 - fibre_mask))
        ++ unpack_string (get_offset key))

unfoldable pub compshort : KeyShort → KeyShort → Comparison
compshort key1 key2 =
    first_of (comp_el key1.el0 key2.el0) (
      if minor2type (get_minor key1) == key_filename_type then equal else comp_el key1.el1 key2.el1)

unfoldable pub compraw : KeyShort → KeyShort → Comparison
compraw key1 key2 =
    first_of (comp_el key1.el0 key2.el0)
      (first_of (comp_el key1.el1 key2.el1) (comp_el key1.el2 key2.el2))

unfoldable pub compfull : KeyShort → KeyShort → Comparison
compfull key1 key2 = compraw key1 key2

module _ (hash fibre : List ℕ → ℕ → ℕ) where
  -- The objectid of a name, with its fibre and, where the name is hashed, the bit that says so.
  unfoldable pub name_objectid : List ℕ → ℕ → ℕ
  name_objectid name len =
      bit_or
        (if leb len (objectid_chars + offset_chars)
          then pack_string name 1
          else bit_or (pack_string name 1) hashed_name_mask)
        (fibre_bits (fibre name len))

  unfoldable pub name_offset : List ℕ → ℕ → ℕ
  name_offset name len =
      if leb len (objectid_chars + offset_chars)
      then if ltb objectid_chars len then pack_string (drop objectid_chars name) 0 else 0
      else hash (drop objectid_chars name) (len - objectid_chars)

  -- `len` is a uint16_t.
  unfoldable pub build_hash : KeyShort → List ℕ → KeyShort
  build_hash key name =
      let len = length name % u16_mod in
      if len == 1 && get_or name 0 0 == b'.'
      then key
      else set_offset (set_fobjectid key (name_objectid name len)) (name_offset name len)

  -- (`locality` is not used, and `objectid` is that of the directory.)
  unfoldable pub build_hashed : ℕ → ℕ → List ℕ → KeyShort
  build_hashed locality objectid name =
      let type = minor2type key_filename_minor in
      build_hash (set_minor (set_locality minimal objectid) (type2minor type)) name

unfoldable pub build_generic : ℕ → ℕ → ℕ → ℕ → ℕ → KeyShort
build_generic type locality ordering objectid offset =
    let key = set_locality minimal locality in
    let key' =
      if type == key_filename_type then set_fobjectid key objectid else set_objectid key objectid in
    set_offset (set_minor key' (type2minor type)) offset
