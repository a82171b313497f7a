-- ===== src/Key/Large/Generic.antt =====
-- key_large_build_generic and the setters and getters; key_large_compfull and _compshort.
use reiser4progs.Prelude.{
  ℕ, ◌+◌, ◌*◌, ◌/◌, ◌%◌, ◌^◌, ◌≤◌, ◌<◌, ◌≡◌, ◌∙◌, sym, ap, ap₂, inl, inr, ◌==◌, u64_mod, arith,
  Bool-cases,
}
use reiser4progs.Key.{type2minor, minor2type, comp_el, first_of, key_filename_type}
use reiser4progs.Key.Fields.{
  minor_known, built_el0, get_locality_field, set_locality_field, get_minor_field, set_minor_field,
  get_full_field, set_full_field, get_objectid_field, set_objectid_field, get_hash_field,
  set_hash_field, set_objectid_fresh,
}
use reiser4progs.Key.Order.{first_of-comp_el, first_of-prefix}
use reiser4progs.Key.Large.{
  KeyLarge, get_minor, set_minor, set_type, get_type, set_locality, get_locality, set_ordering,
  get_ordering, set_objectid, get_objectid, set_fobjectid, get_fobjectid, set_offset, get_offset,
  set_hash, get_hash, compshort, compraw, compfull, build_generic,
}

-- The elements are uint64_t.
pub record IsWords (key : KeyLarge) : Type 0 where
  pub word0 : key.el0 < u64_mod
  pub word1 : key.el1 < u64_mod
  pub word2 : key.el2 < u64_mod
  pub word3 : key.el3 < u64_mod

-- The key as a number of 256 bits, the first element highest.
abbrev pub number : KeyLarge → ℕ
number key = ((key.el0 * u64_mod + key.el1) * u64_mod + key.el2) * u64_mod + key.el3

-- On keys of 64-bit elements, key_large_compfull is the comparison of the keys as numbers of 256
-- bits.
pub compfull_lem :
    (key1 key2 : KeyLarge)
    → IsWords key1
    → IsWords key2
    → compfull key1 key2 ≡ comp_el (number key1) (number key2)
unfolding compfull compraw
compfull_lem key1 key2 w1 w2 =
    ap (λ c. first_of (comp_el key1.el0 key2.el0) (first_of (comp_el key1.el1 key2.el1) c))
      (first_of-comp_el u64_mod key1.el2 key2.el2 key1.el3 key2.el3 w1.word3 w2.word3)
    ∙ ap (first_of (comp_el key1.el0 key2.el0)) (
        first_of-comp_el (u64_mod * u64_mod) key1.el1 key2.el1 (key1.el2 * u64_mod + key1.el3)
          (key2.el2 * u64_mod + key2.el3) (omega (arith, w1.word2, w1.word3))
          (omega (arith, w2.word2, w2.word3)))
    ∙ first_of-comp_el (u64_mod * u64_mod * u64_mod) key1.el0 key2.el0
        (key1.el1 * (u64_mod * u64_mod) + (key1.el2 * u64_mod + key1.el3))
        (key2.el1 * (u64_mod * u64_mod) + (key2.el2 * u64_mod + key2.el3))
        (omega (arith, w1.word1, w1.word2, w1.word3)) (omega (arith, w2.word1, w2.word2, w2.word3))
    ∙ ap₂ comp_el (omega arith) (omega arith)

pub KeyLarge_cong :
    {a0 b0 a1 b1 a2 b2 a3 b3 : ℕ}
    → a0 ≡ b0
    → a1 ≡ b1
    → a2 ≡ b2
    → a3 ≡ b3
    → ◌≡◌ {A = KeyLarge}
        (record { el0 = a0; el1 = a1; el2 = a2; el3 = a3 })
        (record { el0 = b0; el1 = b1; el2 = b2; el3 = b3 })
KeyLarge_cong p0 p1 p2 p3 = λ i. record { el0 = p0 i; el1 = p1 i; el2 = p2 i; el3 = p3 i }

-- The elements of a generic key.
built : ℕ → ℕ → ℕ → ℕ → ℕ → KeyLarge
built type locality ordering objectid offset = record {
  el0 = locality * 16 + type2minor type;
  el1 = ordering;
  el2 = objectid;
  el3 = offset;
}

build_generic-built :
    (type locality ordering objectid offset : ℕ)
    → type ≤ 4
    → locality < 2 ^ 60
    → ordering < u64_mod
    → objectid < u64_mod
    → offset < u64_mod
    → build_generic type locality ordering objectid offset
      ≡ built type locality ordering objectid offset
unfolding build_generic set_offset set_minor set_fobjectid set_objectid set_ordering set_locality
    built
build_generic-built type locality ordering objectid offset ht hl hord hobj hoff =
    elim (Bool-cases (type == key_filename_type)) [
      | inl e ↦ rw e (
          KeyLarge_cong (built_el0 type locality ht hl)
            (set_full_field 0 ordering (omega arith) hord)
            (set_full_field 0 objectid (omega arith) hobj)
            (set_full_field 0 offset (omega arith) hoff))
      | inr e ↦ rw e (
          KeyLarge_cong (built_el0 type locality ht hl)
            (set_full_field 0 ordering (omega arith) hord) (set_objectid_fresh objectid hobj)
            (set_full_field 0 offset (omega arith) hoff))
    ]

-- For a known type, a locality below 2 ^ 60 and an ordering, objectid and offset of 64 bits, the
-- large key that key_large_build_generic builds has 64-bit elements, and its getters return the
-- type, the locality, the ordering, the full objectid and the offset.
pub build_generic_lem :
    (type locality ordering objectid offset : ℕ)
    → type ≤ 4
    → locality < 2 ^ 60
    → ordering < u64_mod
    → objectid < u64_mod
    → offset < u64_mod
    → let key = build_generic type locality ordering objectid offset in
      IsWords key
      × (get_type key ≡ type)
      × (get_locality key ≡ locality)
      × (get_ordering key ≡ ordering)
      × (get_fobjectid key ≡ objectid)
      × (get_offset key ≡ offset)
unfolding get_type get_minor get_locality get_ordering get_fobjectid get_offset built
build_generic_lem type locality ordering objectid offset ht hl hord hobj hoff =
    rw (build_generic-built type locality ordering objectid offset ht hl hord hobj hoff) (
      record { word0 = el0-lt; word1 = hord; word2 = hobj; word3 = hoff },
      ap minor2type {y = type2minor type}
            (get_minor_field _ el0-lt ∙ omega (arith, minor_known type ht))
          ∙ (minor_known type ht).1,
      get_locality_field _ el0-lt ∙ omega (arith, minor_known type ht),
      get_full_field ordering hord,
      get_full_field objectid hobj,
      get_full_field offset hoff,
    )
  where
    el0-lt : locality * 16 + type2minor type < u64_mod
    el0-lt = omega (arith, minor_known type ht)

-- Where key_large_compshort says that two keys differ, key_large_compfull says the same of them.
pub compshort-compfull :
    (key1 key2 : KeyLarge)
    → first_of (compshort key1 key2) (compfull key1 key2) ≡ compfull key1 key2
unfolding compshort compfull compraw
compshort-compfull key1 key2 =
    first_of-prefix (comp_el key1.el0 key2.el0) (comp_el key1.el1 key2.el1)
      (comp_el key1.el2 key2.el2) (comp_el key1.el3 key2.el3)
      (minor2type (get_minor key1) == key_filename_type)

-- On a large key of 64-bit elements, setting a locality below 2 ^ 60 or a known type can be read
-- back, and neither disturbs the other, which lies in the same element.
pub locality-type_lem :
    (key : KeyLarge) (locality type : ℕ)
    → IsWords key
    → locality < 2 ^ 60
    → type ≤ 4
    → (get_locality (set_locality key locality) ≡ locality)
      × (get_type (set_locality key locality) ≡ get_type key)
      × (get_type (set_type key type) ≡ type)
      × (get_locality (set_type key type) ≡ get_locality key)
unfolding get_locality set_locality get_type set_type get_minor set_minor
locality-type_lem key locality type w hl ht =
    rw
      (
        set_locality_field key.el0 locality w.word0 hl,
        set_minor_field key.el0 (type2minor type) w.word0 (minor_known type ht).0,
      )
      (
        get_locality_field _ (omega (arith, w.word0)) ∙ omega (arith, w.word0),
        ap minor2type (
            get_minor_field _ (omega (arith, w.word0))
            ∙ omega (arith, w.word0)
            ∙ sym (get_minor_field _ w.word0)),
        ap minor2type {y = type2minor type} (
              get_minor_field _ (omega (arith, w.word0, minor_known type ht))
              ∙ omega (arith, minor_known type ht))
            ∙ (minor_known type ht).1,
        get_locality_field _ (omega (arith, w.word0, minor_known type ht))
            ∙ omega (arith, minor_known type ht)
            ∙ sym (get_locality_field _ w.word0),
      )

-- On a large key of 64-bit elements, setting an objectid below 2 ^ 60 or a hash below 2 ^ 56 can
-- be read back; the band above the objectid and the generation counter below the hash keep their
-- bits.
pub objectid-hash_lem :
    (key : KeyLarge) (objectid hash : ℕ)
    → IsWords key
    → objectid < 2 ^ 60
    → hash < 2 ^ 56
    → (get_objectid (set_objectid key objectid) ≡ objectid)
      × ((set_objectid key objectid).el2 / 2 ^ 60 ≡ key.el2 / 2 ^ 60)
      × (get_hash (set_hash key hash) ≡ hash)
      × ((set_hash key hash).el3 % 256 ≡ key.el3 % 256)
unfolding get_objectid set_objectid get_hash set_hash
objectid-hash_lem key objectid hash w ho hh =
    rw (set_objectid_field key.el2 objectid w.word2 ho, set_hash_field key.el3 hash w.word3 hh)
      (
        get_objectid_field _ (omega (arith, w.word2)) ∙ omega (arith, w.word2),
        omega (arith, w.word2),
        get_hash_field _ (omega (arith, w.word3)) ∙ omega (arith, w.word3),
        omega (arith, w.word3),
      )
