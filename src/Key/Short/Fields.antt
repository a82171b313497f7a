-- ===== src/Key/Short/Fields.antt =====
-- key_short_build_generic and the setters and getters; key_short_compfull and _compshort.
use reiser4progs.Prelude.{
  ℕ, ◌+◌, ◌*◌, ◌^◌, ◌≤◌, ◌<◌, ◌≡◌, refl, ◌∙◌, ap, ap₂, Bool, true, false, inl, inr, ◌==◌,
  if◌then◌else◌, u64_mod, arith, Bool-cases,
}
use reiser4progs.Aux.Search.{Comparison, less, equal, greater}
use reiser4progs.Key.{type2minor, minor2type, comp_el, first_of, key_filename_type}
use reiser4progs.Key.Fields.{
  minor_known, built_el0, get_locality_field, get_minor_field, get_full_field, set_full_field,
  set_objectid_fresh,
}
use reiser4progs.Key.Order.{first_of-comp_el}
use reiser4progs.Key.Short.{
  KeyShort, get_minor, set_minor, get_type, set_locality, get_locality, set_objectid, set_fobjectid,
  get_fobjectid, set_offset, get_offset, compshort, compraw, compfull, build_generic,
}

-- The elements are uint64_t.
pub record IsShortWords (key : KeyShort) : Type 0 where
  pub word0 : key.el0 < u64_mod
  pub word1 : key.el1 < u64_mod
  pub word2 : key.el2 < u64_mod

-- The key as a number of 192 bits, the first element highest.
abbrev pub number : KeyShort → ℕ
number key = (key.el0 * u64_mod + key.el1) * u64_mod + key.el2

first_of-short_prefix :
    (c0 c1 c2 : Comparison) (t : Bool)
    → let whole = first_of c0 (first_of c1 c2) in
      first_of (first_of c0 (if t then equal else c1)) whole ≡ whole
unfolding first_of
first_of-short_prefix less c1 c2 t = refl
first_of-short_prefix greater c1 c2 t = refl
first_of-short_prefix equal c1 c2 true = refl
first_of-short_prefix equal less c2 false = refl
first_of-short_prefix equal greater c2 false = refl
first_of-short_prefix equal equal c2 false = refl

-- On keys of 64-bit elements, key_short_compfull is the comparison of the keys as numbers of 192
-- bits; and where key_short_compshort decides, it decides as key_short_compfull.
pub compfull-number :
    (key1 key2 : KeyShort)
    → IsShortWords key1
    → IsShortWords key2
    → (compfull key1 key2 ≡ comp_el (number key1) (number key2))
      × (first_of (compshort key1 key2) (compfull key1 key2) ≡ compfull key1 key2)
unfolding compfull compraw compshort
compfull-number key1 key2 w1 w2 = (
  ap (first_of (comp_el key1.el0 key2.el0))
        (first_of-comp_el u64_mod key1.el1 key2.el1 key1.el2 key2.el2 w1.word2 w2.word2)
      ∙ first_of-comp_el (u64_mod * u64_mod) key1.el0 key2.el0 (key1.el1 * u64_mod + key1.el2)
          (key2.el1 * u64_mod + key2.el2) (omega (arith, w1.word1, w1.word2))
          (omega (arith, w2.word1, w2.word2))
      ∙ ap₂ comp_el (omega arith) (omega arith),
  first_of-short_prefix (comp_el key1.el0 key2.el0) (comp_el key1.el1 key2.el1)
      (comp_el key1.el2 key2.el2) (minor2type (get_minor key1) == key_filename_type),
)

KeyShort_cong :
    {a0 b0 a1 b1 a2 b2 : ℕ}
    → a0 ≡ b0
    → a1 ≡ b1
    → a2 ≡ b2
    → ◌≡◌ {A = KeyShort}
        (record { el0 = a0; el1 = a1; el2 = a2 })
        (record { el0 = b0; el1 = b1; el2 = b2 })
KeyShort_cong p0 p1 p2 = λ i. record { el0 = p0 i; el1 = p1 i; el2 = p2 i }

-- The elements of a generic key.
built : ℕ → ℕ → ℕ → ℕ → KeyShort
built type locality objectid offset = record {
  el0 = locality * 16 + type2minor type;
  el1 = objectid;
  el2 = offset;
}

build_generic-built :
    (type locality ordering objectid offset : ℕ)
    → type ≤ 4
    → locality < 2 ^ 60
    → objectid < u64_mod
    → offset < u64_mod
    → build_generic type locality ordering objectid offset ≡ built type locality objectid offset
unfolding build_generic set_offset set_minor set_fobjectid set_objectid set_locality built
build_generic-built type locality ordering objectid offset ht hl hobj hoff =
    elim (Bool-cases (type == key_filename_type)) [
      | inl e ↦ rw e (
          KeyShort_cong (built_el0 type locality ht hl)
            (set_full_field 0 objectid (omega arith) hobj)
            (set_full_field 0 offset (omega arith) hoff))
      | inr e ↦ rw e (
          KeyShort_cong (built_el0 type locality ht hl) (set_objectid_fresh objectid hobj)
            (set_full_field 0 offset (omega arith) hoff))
    ]

-- For a known type, a locality below 2 ^ 60 and an objectid and offset of 64 bits, the short key
-- that key_short_build_generic builds has 64-bit elements, and its getters return the type, the
-- locality, the full objectid and the offset; the ordering is dropped.
pub build_generic-fields :
    (type locality ordering objectid offset : ℕ)
    → type ≤ 4
    → locality < 2 ^ 60
    → objectid < u64_mod
    → offset < u64_mod
    → let key = build_generic type locality ordering objectid offset in
      IsShortWords key
      × (get_type key ≡ type)
      × (get_locality key ≡ locality)
      × (get_fobjectid key ≡ objectid)
      × (get_offset key ≡ offset)
unfolding get_type get_minor get_locality get_fobjectid get_offset built
build_generic-fields type locality ordering objectid offset ht hl hobj hoff =
    rw (build_generic-built type locality ordering objectid offset ht hl hobj hoff) (
      record { word0 = el0-lt; word1 = hobj; word2 = hoff },
      ap minor2type {y = type2minor type}
            (get_minor_field _ el0-lt ∙ omega (arith, minor_known type ht))
          ∙ (minor_known type ht).1,
      get_locality_field _ el0-lt ∙ omega (arith, minor_known type ht),
      get_full_field objectid hobj,
      get_full_field offset hoff,
    )
  where
    el0-lt : locality * 16 + type2minor type < u64_mod
    el0-lt = omega (arith, minor_known type ht)
