-- ===== src/Key/Fields.antt =====
-- The fields that the handler macros make, as arithmetic: what each getter reads of its element, and
-- what each setter leaves.
use reiser4progs.Prelude.{
  ℕ, zero, suc, ◌+◌, ◌-◌, ◌*◌, ◌/◌, ◌%◌, ◌^◌, ◌≤◌, ◌<◌, ◌≡◌, refl, ◌∙◌, ap₂, bit_and, bit_or,
  bit_and-zero, bit_and_ones, zero-bit_or, zero-bit_and, bit_or_disjoint, u64_mod, arith,
}
use reiser4progs.Key.{get_field, set_field, type2minor, minor2type}
use reiser4progs.Key.Words.{bit_and_low, bit_and_high, bit_or_join}

-- The masks of the enumerations.
abbrev pub locality_mask : ℕ
locality_mask = 0xfffffffffffffff0

abbrev pub type_mask : ℕ
type_mask = 0xf

abbrev pub full_mask : ℕ
full_mask = 0xffffffffffffffff

abbrev pub band_mask : ℕ
band_mask = 0xf000000000000000

abbrev pub objectid_mask : ℕ
objectid_mask = 0x0fffffffffffffff

abbrev pub hash_mask : ℕ
hash_mask = 0xffffffffffffff00

-- A word whose parts at a bit are `a` and `x`.
abbrev parts : ℕ → ℕ → ℕ
parts k el = el / 2 ^ k * 2 ^ k + el % 2 ^ k

high_of :
    (m k el mask : ℕ)
    → mask ≡ (2 ^ m - 1) * 2 ^ k
    → el ≡ parts k el
    → el / 2 ^ k < 2 ^ m
    → el % 2 ^ k < 2 ^ k
    → bit_and el mask ≡ el / 2 ^ k * 2 ^ k
high_of m k el mask em e ha hx = ap₂ bit_and e em ∙ bit_and_high m k (el / 2 ^ k) (el % 2 ^ k) ha hx

low_of :
    (m k el mask : ℕ)
    → mask ≡ 2 ^ k - 1
    → el ≡ parts k el
    → el / 2 ^ k < 2 ^ m
    → el % 2 ^ k < 2 ^ k
    → bit_and el mask ≡ el % 2 ^ k
low_of m k el mask em e ha hx = ap₂ bit_and e em ∙ bit_and_low m k (el / 2 ^ k) (el % 2 ^ k) ha hx

pub get_locality_field : (el : ℕ) → el < u64_mod → get_field locality_mask 4 el ≡ el / 16
unfolding get_field
get_locality_field el h =
    omega (arith, high_of 60 4 el locality_mask refl (omega arith) (omega arith) (omega arith))

pub set_locality_field :
    (el v : ℕ) → el < u64_mod → v < 2 ^ 60 → set_field locality_mask 4 el v ≡ v * 16 + el % 16
unfolding set_field
set_locality_field el v h hv = omega (
  arith,
  ap₂ bit_or {x = bit_and el (u64_mod - 1 - locality_mask)} {y = el % 16} {u = v * 2 ^ 4 % u64_mod}
      {v = v * 2 ^ 4} (low_of 60 4 el 15 refl (omega arith) (omega arith) (omega arith))
      (omega arith),
  bit_or_join 4 v (el % 16) (omega arith),
)

pub get_minor_field : (el : ℕ) → el < u64_mod → get_field type_mask 0 el ≡ el % 16
unfolding get_field
get_minor_field el h =
    omega (arith, low_of 60 4 el type_mask refl (omega arith) (omega arith) (omega arith))

pub set_minor_field :
    (el v : ℕ) → el < u64_mod → v < 16 → set_field type_mask 0 el v ≡ el / 16 * 16 + v
unfolding set_field
set_minor_field el v h hv = omega (
  arith,
  ap₂ bit_or {x = bit_and el (u64_mod - 1 - type_mask)} {y = el / 16 * 2 ^ 4} {u = v * 1 % u64_mod}
      {v = v} (high_of 60 4 el locality_mask refl (omega arith) (omega arith) (omega arith))
      (omega arith),
  bit_or_disjoint 60 4 (el / 16) v (omega arith) hv,
)

pub get_full_field : (el : ℕ) → el < u64_mod → get_field full_mask 0 el ≡ el
unfolding get_field
get_full_field el h = omega (arith, bit_and_ones 64 el h)

pub set_full_field : (el v : ℕ) → el < u64_mod → v < u64_mod → set_field full_mask 0 el v ≡ v
unfolding set_field
set_full_field el v h hv = omega (
  arith,
  ap₂ bit_or {x = bit_and el (u64_mod - 1 - full_mask)} {y = 0} {u = v * 1 % u64_mod} {v = v}
      (bit_and-zero 64 el h) (omega arith),
  zero-bit_or v,
)

pub get_band_field : (el : ℕ) → el < u64_mod → get_field band_mask 60 el ≡ el / 2 ^ 60
unfolding get_field
get_band_field el h =
    omega (arith, high_of 4 60 el band_mask refl (omega arith) (omega arith) (omega arith))

pub set_band_field :
    (el v : ℕ) → el < u64_mod → v < 16 → set_field band_mask 60 el v ≡ v * 2 ^ 60 + el % 2 ^ 60
unfolding set_field
set_band_field el v h hv = omega (
  arith,
  ap₂ bit_or {x = bit_and el (u64_mod - 1 - band_mask)} {y = el % 2 ^ 60} {u = v * 2 ^ 60 % u64_mod}
      {v = v * 2 ^ 60} (low_of 4 60 el objectid_mask refl (omega arith) (omega arith) (omega arith))
      (omega arith),
  bit_or_join 60 v (el % 2 ^ 60) (omega arith),
)

pub get_objectid_field : (el : ℕ) → el < u64_mod → get_field objectid_mask 0 el ≡ el % 2 ^ 60
unfolding get_field
get_objectid_field el h =
    omega (arith, low_of 4 60 el objectid_mask refl (omega arith) (omega arith) (omega arith))

pub set_objectid_field :
    (el v : ℕ)
    → el < u64_mod
    → v < 2 ^ 60
    → set_field objectid_mask 0 el v ≡ el / 2 ^ 60 * 2 ^ 60 + v
unfolding set_field
set_objectid_field el v h hv = omega (
  arith,
  ap₂ bit_or {x = bit_and el (u64_mod - 1 - objectid_mask)} {y = el / 2 ^ 60 * 2 ^ 60}
      {u = v * 1 % u64_mod} {v = v}
      (high_of 4 60 el band_mask refl (omega arith) (omega arith) (omega arith)) (omega arith),
  bit_or_disjoint 4 60 (el / 2 ^ 60) v (omega arith) hv,
)

-- On a fresh element, a value that does not fit the objectid runs over into the band.
pub set_objectid_fresh : (v : ℕ) → v < u64_mod → set_field objectid_mask 0 0 v ≡ v
unfolding set_field
set_objectid_fresh v hv = omega (
  arith,
  ap₂ bit_or {x = bit_and 0 (u64_mod - 1 - objectid_mask)} {y = 0} {u = v * 1 % u64_mod} {v = v}
      (zero-bit_and (u64_mod - 1 - objectid_mask)) (omega arith),
  zero-bit_or v,
)

pub get_hash_field : (el : ℕ) → el < u64_mod → get_field hash_mask 8 el ≡ el / 256
unfolding get_field
get_hash_field el h =
    omega (arith, high_of 56 8 el hash_mask refl (omega arith) (omega arith) (omega arith))

pub set_hash_field :
    (el v : ℕ) → el < u64_mod → v < 2 ^ 56 → set_field hash_mask 8 el v ≡ v * 256 + el % 256
unfolding set_field
set_hash_field el v h hv = omega (
  arith,
  ap₂ bit_or {x = bit_and el (u64_mod - 1 - hash_mask)} {y = el % 256} {u = v * 2 ^ 8 % u64_mod}
      {v = v * 2 ^ 8} (low_of 56 8 el 255 refl (omega arith) (omega arith) (omega arith))
      (omega arith),
  bit_or_join 8 v (el % 256) (omega arith),
)

-- The known types have minors that fit the field, and come back from them.
pub minor_known :
    (type : ℕ) → type ≤ 4 → (type2minor type < 16) × (minor2type (type2minor type) ≡ type)
unfolding type2minor minor2type
minor_known zero h = (omega arith, refl)
minor_known (suc zero) h = (omega arith, refl)
minor_known (suc (suc zero)) h = (omega arith, refl)
minor_known (suc (suc (suc zero))) h = (omega arith, refl)
minor_known (suc (suc (suc (suc zero)))) h = (omega arith, refl)
minor_known (suc (suc (suc (suc (suc type))))) h = absurd (omega arith)

-- The first element of a key that is built from a locality and a type.
pub built_el0 :
    (type locality : ℕ)
    → type ≤ 4
    → locality < 2 ^ 60
    → set_field type_mask 0 (set_field locality_mask 4 0 locality) (type2minor type)
      ≡ locality * 16 + type2minor type
built_el0 type locality ht hl = rw (set_locality_field 0 locality (omega arith) hl) (
    omega (
      arith,
      set_minor_field (locality * 16 + 0 % 16) (type2minor type) (omega arith)
          (minor_known type ht).0,
    ))
