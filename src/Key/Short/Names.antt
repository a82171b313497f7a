-- ===== src/Key/Short/Names.antt =====
-- key_short_build_hashed and key_short_get_name: the name of a file in its key.
use reiser4progs.Prelude.{
  ℕ, ◌+◌, ◌*◌, ◌%◌, ◌^◌, ◌≤◌, ◌<◌, ◌≡◌, refl, ◌∙◌, sym, ap, true, false, some, List, length,
  length-drop, drop, take-append-drop, ltb, leb, ◌==◌, ◌&&◌, Bool-cases, inl, inr, bit_and, u64_mod,
  u16_mod, arith,
}
use reiser4progs.Aux.Names.{AllChars, pack_string}
use reiser4progs.Key.{set_field}
use reiser4progs.Key.Fields.{full_mask, get_full_field, set_full_field}
use reiser4progs.Key.Packed.{
  drop-AllChars, unpack_string-slice, pack_string-nil, pack_string_first-lt, pack_string-lt,
  pack_string-pos, bit_and-hashed_bit, bit_and-name_bits, dot, long, long-le, dot_name, drop-nil,
  take_all, packed_head,
}
use reiser4progs.Key.Short.{
  get_fobjectid, set_fobjectid, get_offset, hashed, get_name, name_objectid, name_offset,
  build_hash, build_hashed, set_offset, set_minor, set_locality,
}

module _ (hash fibre : List ℕ → ℕ → ℕ) where
  name_objectid_lem :
      (name : List ℕ)
      → AllChars name
      → name_objectid hash fibre name (length name)
        ≡ (fibre name (length name) % 128 * 2 + long 15 name) * 2 ^ 56 + pack_string name 1
  unfolding name_objectid
  name_objectid_lem name all = packed_head 15 (fibre name (length name)) name all

  objectid-lt :
      (name : List ℕ) → AllChars name → name_objectid hash fibre name (length name) < u64_mod
  objectid-lt name all =
      omega (arith, name_objectid_lem name all, pack_string_first-lt name all, long-le 15 name)

  name_elements :
      (locality objectid : ℕ) (name : List ℕ)
      → AllChars name
      → length name < u16_mod
      → dot name ≡ false
      → let key = build_hashed hash fibre locality objectid name in
        (key.el1 ≡ name_objectid hash fibre name (length name))
        × (key.el2 ≡ set_field full_mask 0 0 (name_offset hash fibre name (length name)))
  unfolding build_hashed build_hash set_offset set_fobjectid set_minor set_locality
  name_elements locality objectid name all fits nodot =
      rw (len, nodot) (set_full_field 0 _ (omega arith) (objectid-lt name all), refl)
    where
      len : length name % u16_mod ≡ length name
      len = omega arith

  dot_elements :
      (locality objectid : ℕ) (name : List ℕ)
      → length name < u16_mod
      → dot name ≡ true
      → let key = build_hashed hash fibre locality objectid name in (key.el1 ≡ 0) × (key.el2 ≡ 0)
  unfolding build_hashed build_hash set_minor set_locality
  dot_elements locality objectid name fits isdot = rw (len, isdot) (refl, refl)
    where
      len : length name % u16_mod ≡ length name
      len = omega arith

  -- For a name of fewer than 2 ^ 16 non-zero characters, the short key built for it says that
  -- it is hashed exactly if the name has more than 15 characters, whatever the hash and the
  -- fibre plugin.
  pub hashed-long_name :
      (locality objectid : ℕ) (name : List ℕ)
      → AllChars name
      → length name < u16_mod
      → hashed (build_hashed hash fibre locality objectid name) ≡ ltb 15 (length name)
  unfolding hashed get_fobjectid
  hashed-long_name locality objectid name all fits = elim (Bool-cases (dot name)) [
    | inl isdot ↦
        rw ((dot_elements locality objectid name fits isdot).0, get_full_field 0 (omega arith))
          (ground arith)
    | inr nodot ↦
        rw
          (
            (name_elements locality objectid name all fits nodot).0,
            get_full_field _ (objectid-lt name all),
            name_objectid_lem name all,
            bit_and-hashed_bit (fibre name (length name) % 128) (long 15 name) (pack_string name 1)
                (omega arith) (ground arith) (pack_string_first-lt name all),
          )
          (ground arith)
  ]

  name_offset_lem :
      (name : List ℕ)
      → AllChars name
      → length name ≤ 15
      → name_offset hash fibre name (length name) ≡ pack_string (drop 7 name) 0
  unfolding name_offset
  name_offset_lem name all short = elim (Bool-cases (ltb 7 (length name))) [
    | inl e ↦ rw ((leb_true short), e)
    | inr e ↦
        rw ((leb_true short), e)
          (sym (ap (λ t. pack_string t 0) (drop-nil 7 name (ground arith)) ∙ pack_string-nil))
  ]
    where
      leb_true : {n m : ℕ} → n ≤ m → leb n m ≡ true
      leb_true h = ground arith

  -- What key_short_get_name reads back of a name that is not hashed.
  get_name_parts :
      (locality objectid : ℕ) (name : List ℕ)
      → AllChars name
      → 0 < length name
      → length name ≤ 15
      → dot name ≡ false
      → let key = build_hashed hash fibre locality objectid name in
        (0 < get_fobjectid key)
        × (bit_and (get_fobjectid key) 0x00ffffffffffffff ≡ pack_string name 1)
        × (get_offset key ≡ pack_string (drop 7 name) 0)
        × (fibre name (length name) < 8 → get_fobjectid key < 2 ^ 60)
  unfolding get_fobjectid get_offset
  get_name_parts locality objectid name all pos short nodot =
      let el = name_elements locality objectid name all (omega arith) nodot in
      rw
        (
          el.0,
          el.1,
          get_full_field _ (objectid-lt name all),
          name_objectid_lem name all,
          name_offset_lem name all short,
          set_full_field 0 _ (omega arith)
              (pack_string-lt (drop 7 name) (drop-AllChars 7 name all)),
        )
        (
          omega (arith, pack_string-pos name all pos),
          bit_and-name_bits (fibre name (length name) % 128) (long 15 name) (pack_string name 1)
              (omega arith) (ground arith) (pack_string_first-lt name all),
          get_full_field _ (pack_string-lt (drop 7 name) (drop-AllChars 7 name all)),
          λ low. ground (arith, pack_string_first-lt name all),
        )

  dot_fields :
      (locality objectid : ℕ) (name : List ℕ)
      → length name < u16_mod
      → dot name ≡ true
      → let key = build_hashed hash fibre locality objectid name in
        (get_fobjectid key ≡ 0) × (get_offset key ≡ 0)
  unfolding get_fobjectid get_offset
  dot_fields locality objectid name fits isdot =
      let el = dot_elements locality objectid name fits isdot in
      rw (el.0, el.1) (get_full_field 0 (omega arith), get_full_field 0 (omega arith))

  -- For a name of 1 to 15 non-zero characters whose fibre is below 8, and for "." whatever its
  -- fibre, key_short_build_hashed makes a key whose objectid takes 60 bits, as umka-1499
  -- demands, and key_short_get_name gives the name back, whatever the hash plugin.
  pub get_name-short_name :
      (locality objectid : ℕ) (name : List ℕ)
      → AllChars name
      → 0 < length name
      → length name ≤ 15
      → (dot name ≡ false → fibre name (length name) < 8)
      → let key = build_hashed hash fibre locality objectid name in
        (get_fobjectid key < 2 ^ 60) × (get_name key ≡ some name)
  unfolding get_name
  get_name-short_name locality objectid name all pos short low = elim (Bool-cases (dot name)) [
    | inl isdot ↦
        let f = dot_fields locality objectid name (omega arith) isdot in
        rw (unhashed, f.0, f.1) (omega arith, ap some (sym (dot_name name isdot)))
    | inr nodot ↦
        let f = get_name_parts locality objectid name all pos short nodot in
        (
          f.3 (low nodot),
          rw (unhashed, not_both_zero _ _ f.0)
              (ap some (
                rw
                  (
                    f.1,
                    f.2,
                    unpack_string-slice name 1 all (omega arith),
                    unpack_string-slice (drop 7 name) 0 (drop-AllChars 7 name all) (omega arith),
                    take_all 8 (drop 7 name) (omega (arith, length-drop 7 name)),
                  )
                  (take-append-drop 7 name))),
        )
  ]
    where
      unhashed : hashed (build_hashed hash fibre locality objectid name) ≡ false
      unhashed = hashed-long_name locality objectid name all (omega arith) ∙ ground arith

      not_both_zero : (objectid offset : ℕ) → 0 < objectid → (objectid == 0 && offset == 0) ≡ false
      not_both_zero objectid offset h = ground arith
