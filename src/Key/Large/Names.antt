-- ===== src/Key/Large/Names.antt =====
-- key_large_build_hashed and key_large_get_name: the name of a file in its key.
use reiser4progs.Prelude.{
  ℕ, ◌+◌, ◌*◌, ◌%◌, ◌^◌, ◌≤◌, ◌<◌, ◌≡◌, refl, ◌∙◌, sym, ap, true, false, some, List, length,
  length-drop, drop, ltb, leb, ◌==◌, ◌&&◌, Bool-cases, inl, inr, bit_and, u64_mod, u16_mod, arith,
}
use reiser4progs.Aux.Names.{AllChars, pack_string}
use reiser4progs.Key.{set_field}
use reiser4progs.Key.Fields.{
  full_mask, objectid_mask, get_full_field, set_full_field, set_objectid_fresh,
}
use reiser4progs.Key.Packed.{
  drop-AllChars, unpack_string-slice, pack_string-nil, pack_string_first-lt, pack_string-lt,
  pack_string-pos, take-drop_slices, bit_and-hashed_bit, bit_and-name_bits, dot, long, long-le,
  dot_name, drop-nil, take_all, packed_head,
}
use reiser4progs.Key.Large.{
  get_ordering, get_fobjectid, get_offset, hashed, get_name, name_ordering, name_objectid,
  name_offset, build_hash, build_hashed, set_ordering, set_objectid, set_offset, set_minor,
  set_locality,
}

module _ (hash fibre : List ℕ → ℕ → ℕ) where
  name_ordering_lem :
      (name : List ℕ)
      → AllChars name
      → name_ordering hash fibre name (length name)
        ≡ (fibre name (length name) % 128 * 2 + long 23 name) * 2 ^ 56 + pack_string name 1
  unfolding name_ordering
  name_ordering_lem name all = packed_head 23 (fibre name (length name)) name all

  ordering-lt :
      (name : List ℕ) → AllChars name → name_ordering hash fibre name (length name) < u64_mod
  ordering-lt name all =
      omega (arith, name_ordering_lem name all, pack_string_first-lt name all, long-le 23 name)

  -- The elements that a name puts into its key.
  name_elements :
      (locality objectid : ℕ) (name : List ℕ)
      → AllChars name
      → length name < u16_mod
      → dot name ≡ false
      → let key = build_hashed hash fibre locality objectid name in
        (key.el1 ≡ name_ordering hash fibre name (length name))
        × (key.el2 ≡ set_field objectid_mask 0 0 (name_objectid hash fibre name (length name)))
        × (key.el3 ≡ set_field full_mask 0 0 (name_offset hash fibre name (length name)))
  unfolding build_hashed build_hash set_offset set_objectid set_ordering set_minor set_locality
  name_elements locality objectid name all fits nodot =
      rw (len, nodot) (set_full_field 0 _ (omega arith) (ordering-lt name all), refl, refl)
    where
      len : length name % u16_mod ≡ length name
      len = omega arith

  dot_elements :
      (locality objectid : ℕ) (name : List ℕ)
      → length name < u16_mod
      → dot name ≡ true
      → let key = build_hashed hash fibre locality objectid name in
        (key.el1 ≡ 0) × (key.el2 ≡ 0) × (key.el3 ≡ 0)
  unfolding build_hashed build_hash set_minor set_locality
  dot_elements locality objectid name fits isdot = rw (len, isdot) (refl, refl, refl)
    where
      len : length name % u16_mod ≡ length name
      len = omega arith

  -- For a name of fewer than 2 ^ 16 non-zero characters, the large key built for it says that
  -- it is hashed exactly if the name has more than 23 characters, whatever the hash and the
  -- fibre plugin.
  pub hashed-build_hashed :
      (locality objectid : ℕ) (name : List ℕ)
      → AllChars name
      → length name < u16_mod
      → hashed (build_hashed hash fibre locality objectid name) ≡ ltb 23 (length name)
  unfolding hashed get_ordering
  hashed-build_hashed locality objectid name all fits = elim (Bool-cases (dot name)) [
    | inl isdot ↦
        rw ((dot_elements locality objectid name fits isdot).0, get_full_field 0 (omega arith))
          (ground arith)
    | inr nodot ↦
        rw
          (
            (name_elements locality objectid name all fits nodot).0,
            get_full_field _ (ordering-lt name all),
            name_ordering_lem name all,
            bit_and-hashed_bit (fibre name (length name) % 128) (long 23 name) (pack_string name 1)
                (omega arith) (ground arith) (pack_string_first-lt name all),
          )
          (ground arith)
  ]

  name_objectid_lem :
      (name : List ℕ)
      → AllChars name
      → name_objectid hash fibre name (length name) ≡ pack_string (drop 7 name) 0
  unfolding name_objectid
  name_objectid_lem name all = elim (Bool-cases (ltb 7 (length name))) [
    | inl e ↦ rw e
    | inr e ↦
        rw e (sym (ap (λ t. pack_string t 0) (drop-nil 7 name (ground arith)) ∙ pack_string-nil))
  ]

  name_offset_lem :
      (name : List ℕ)
      → AllChars name
      → length name ≤ 23
      → name_offset hash fibre name (length name) ≡ pack_string (drop 15 name) 0
  unfolding name_offset
  name_offset_lem name all short = elim (Bool-cases (ltb 15 (length name))) [
    | inl e ↦ rw ((leb_true short), e)
    | inr e ↦
        rw ((leb_true short), e)
          (sym (ap (λ t. pack_string t 0) (drop-nil 15 name (ground arith)) ∙ pack_string-nil))
  ]
    where
      leb_true : {n m : ℕ} → n ≤ m → leb n m ≡ true
      leb_true h = ground arith

  -- What key_large_get_name reads back of a name that is not hashed.
  get_name_parts :
      (locality objectid : ℕ) (name : List ℕ)
      → AllChars name
      → 0 < length name
      → length name ≤ 23
      → dot name ≡ false
      → let key = build_hashed hash fibre locality objectid name in
        (0 < get_ordering key)
        × (bit_and (get_ordering key) 0x00ffffffffffffff ≡ pack_string name 1)
        × (get_fobjectid key ≡ pack_string (drop 7 name) 0)
        × (get_offset key ≡ pack_string (drop 15 name) 0)
  unfolding get_ordering get_fobjectid get_offset
  get_name_parts locality objectid name all pos short nodot =
      let el = name_elements locality objectid name all (omega arith) nodot in
      rw
        (
          el.0,
          el.1,
          el.2,
          get_full_field _ (ordering-lt name all),
          name_ordering_lem name all,
          name_objectid_lem name all,
          name_offset_lem name all short,
          set_objectid_fresh _ (pack_string-lt (drop 7 name) (drop-AllChars 7 name all)),
          set_full_field 0 _ (omega arith)
              (pack_string-lt (drop 15 name) (drop-AllChars 15 name all)),
        )
        (
          omega (arith, pack_string-pos name all pos),
          bit_and-name_bits (fibre name (length name) % 128) (long 23 name) (pack_string name 1)
              (omega arith) (ground arith) (pack_string_first-lt name all),
          get_full_field _ (pack_string-lt (drop 7 name) (drop-AllChars 7 name all)),
          get_full_field _ (pack_string-lt (drop 15 name) (drop-AllChars 15 name all)),
        )

  dot_fields :
      (locality objectid : ℕ) (name : List ℕ)
      → length name < u16_mod
      → dot name ≡ true
      → let key = build_hashed hash fibre locality objectid name in
        (get_ordering key ≡ 0) × (get_fobjectid key ≡ 0) × (get_offset key ≡ 0)
  unfolding get_ordering get_fobjectid get_offset
  dot_fields locality objectid name fits isdot =
      let el = dot_elements locality objectid name fits isdot in
      rw (el.0, el.1, el.2)
        (
          get_full_field 0 (omega arith),
          get_full_field 0 (omega arith),
          get_full_field 0 (omega arith),
        )

  -- Whatever the hash and the fibre plugin, the large key that is built for a name of 1 to 23
  -- non-zero characters gives that name back: key_large_get_name undoes key_large_build_hashed,
  -- on "." too.
  pub get_name-build_hashed :
      (locality objectid : ℕ) (name : List ℕ)
      → AllChars name
      → 0 < length name
      → length name ≤ 23
      → get_name (build_hashed hash fibre locality objectid name) ≡ some name
  unfolding get_name
  get_name-build_hashed locality objectid name all pos short = elim (Bool-cases (dot name)) [
    | inl isdot ↦
        let f = dot_fields locality objectid name (omega arith) isdot in
        rw (unhashed, f.0, f.1, f.2) (ap some (sym (dot_name name isdot)))
    | inr nodot ↦
        let f = get_name_parts locality objectid name all pos short nodot in
        rw (unhashed, not_all_zero _ _ _ f.0)
          (ap some (
            rw
              (
                f.1,
                f.2,
                f.3,
                unpack_string-slice name 1 all (omega arith),
                unpack_string-slice (drop 7 name) 0 (drop-AllChars 7 name all) (omega arith),
                unpack_string-slice (drop 15 name) 0 (drop-AllChars 15 name all) (omega arith),
                take_all 8 (drop 15 name) (omega (arith, length-drop 15 name)),
              )
              (take-drop_slices name)))
  ]
    where
      unhashed : hashed (build_hashed hash fibre locality objectid name) ≡ false
      unhashed = hashed-build_hashed locality objectid name all (omega arith) ∙ ground arith

      not_all_zero :
          (ordering objectid offset : ℕ)
          → 0 < ordering
          → (objectid == 0 && (offset == 0 && ordering == 0)) ≡ false
      not_all_zero ordering objectid offset h = ground arith
