-- ===== src/Key.antt =====
-- plugin/key: what the large and the short keys share. key_common/key_common.c names the types of
-- keys; the macros KEY_LARGE_FIELD_HANDLER and KEY_SHORT_FIELD_HANDLER make a getter and a setter for
-- each field of a key, from a mask and a shift. An element of a key is the uint64_t that it has in the
-- byte order of the host; the name of a file is the list of its characters, none of them zero.
pub mod Words
pub mod Fields
pub mod Order
pub mod Packed
pub mod Large
pub mod Short
mod Tests
use reiser4progs.Prelude.{
  ℕ, ◌-◌, ◌*◌, ◌/◌, ◌%◌, ◌^◌, ltb, ◌==◌, if◌then◌else◌, bit_and, bit_or, u64_mod,
}
use reiser4progs.Aux.Search.{Comparison, less, equal, greater}

-- key_type_t
abbrev pub key_filename_type : ℕ
key_filename_type = 0

abbrev pub key_statdata_type : ℕ
key_statdata_type = 1

abbrev pub key_attrname_type : ℕ
key_attrname_type = 2

abbrev pub key_attrbody_type : ℕ
key_attrbody_type = 3

abbrev pub key_filebody_type : ℕ
key_filebody_type = 4

-- key_minor_t
abbrev pub key_filename_minor : ℕ
key_filename_minor = 0

abbrev pub key_statdata_minor : ℕ
key_statdata_minor = 1

abbrev pub key_attrname_minor : ℕ
key_attrname_minor = 2

abbrev pub key_attrbody_minor : ℕ
key_attrbody_minor = 3

abbrev pub key_filebody_minor : ℕ
key_filebody_minor = 4

unfoldable pub type2minor : ℕ → ℕ
type2minor type =
    if type == key_filename_type
    then key_filename_minor
    else if type == key_statdata_type
    then key_statdata_minor
    else if type == key_attrname_type
    then key_attrname_minor
    else if type == key_attrbody_type
    then key_attrbody_minor
    else if type == key_filebody_type
    then key_filebody_minor
    else 255

unfoldable pub minor2type : ℕ → ℕ
minor2type minor =
    if minor == key_filename_minor
    then key_filename_type
    else if minor == key_statdata_minor
    then key_statdata_type
    else if minor == key_attrname_minor
    then key_attrname_type
    else if minor == key_attrbody_minor
    then key_attrbody_type
    else if minor == key_filebody_minor
    then key_filebody_type
    else 255

-- The getter and the setter of a field, on its element.
unfoldable pub get_field : ℕ → ℕ → ℕ → ℕ
get_field mask shift el = bit_and el mask / 2 ^ shift

unfoldable pub set_field : ℕ → ℕ → ℕ → ℕ → ℕ
set_field mask shift el loc = bit_or (bit_and el (u64_mod - 1 - mask)) (loc * 2 ^ shift % u64_mod)

-- kl_comp_el and ks_comp_el, of two elements.
unfoldable pub comp_el : ℕ → ℕ → Comparison
comp_el e1 e2 = if ltb e1 e2 then less else if e1 == e2 then equal else greater

-- `if ((res = first)) return res;` in front of the rest.
unfoldable pub first_of : Comparison → Comparison → Comparison
first_of less rest = less
first_of equal rest = rest
first_of greater rest = greater
