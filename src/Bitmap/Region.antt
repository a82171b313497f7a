-- ===== src/Bitmap/Region.antt =====
-- reiser4_bitmap_mark_region and _clear_region, inside the bitmap and beyond its end.
use reiser4progs.Prelude.{
  ℕ, ◌+◌, ◌-◌, ◌%◌, ◌≤◌, ◌<◌, ◌≡◌, ◌⊎◌, ap, true, false, inl, inr, count_in-not, u64_mod, arith,
}
use reiser4progs.Aal.{Aal}
use reiser4progs.Bitmap.{Bitmap, mark_region, clear_region, calc, calc_loop}
use reiser4progs.Bitmap.Contents.{contents, IsValid, calc_lem}
use reiser4progs.Bitmap.Overwrite.{
  Wrote, overwrite-Wrote, empty-Wrote, count_in-true, count_in-false, count_in_parts-le,
}

module _ ⦃aal : Aal⦄ where
  open aal use {
    test_bit_lem, set_bit_lem, clear_bit_lem, set_bits_lem, clear_bits_lem, length-set_bit,
    length-clear_bit, length-set_bits, length-clear_bits, set_bits, clear_bits, test_bit, set_bit,
    clear_bit,
  }

  -- A region inside the bitmap passes both bound checks, or is empty.
  mark_region_inside :
      (b : Bitmap) (s c : ℕ)
      → s + c ≤ b.total
      → b.total < u64_mod
      → ((mark_region b s c ≡ b) × (c ≡ 0)
          ⊎ (mark_region b s c ≡ record b {
            bytes = set_bits b.bytes s c;
            marked = (b.marked + calc b s c false) % u64_mod;
          }))
  unfolding mark_region
  mark_region_inside b s c h small = ground arith

  -- Marking a region inside a valid bitmap gives a valid bitmap of the same size in which
  -- exactly the blocks of the region were added, and the counter grew by those not marked
  -- before.
  pub mark_region-Wrote :
      (b : Bitmap) (s c : ℕ) → IsValid b → s + c ≤ b.total → Wrote true b (mark_region b s c) s c
  mark_region-Wrote b s c v h = elim (mark_region_inside b s c h v.small) [
    | inl (same, none) ↦ rw (same, none) (empty-Wrote true b s v)
    | inr written ↦ rw written (
        overwrite-Wrote true b s c (set_bits b.bytes s c) _ v h
          (length-set_bits b.bytes s c (omega (arith, v.room)))
          (λ j. set_bits_lem b.bytes s c j (omega (arith, v.room)))
          (omega (
            arith,
            v.small,
            v.counted,
            calc_lem b s c false v.room (omega (arith, v.small)),
            count_in-not (contents b) s c,
            count_in-true s c,
            count_in_parts-le b v s c h,
          )))
  ]

  -- A region inside the bitmap passes both bound checks, or is empty.
  clear_region_inside :
      (b : Bitmap) (s c : ℕ)
      → s + c ≤ b.total
      → b.total < u64_mod
      → ((clear_region b s c ≡ b) × (c ≡ 0)
          ⊎ (clear_region b s c ≡ record b {
            bytes = clear_bits b.bytes s c;
            marked = (b.marked + u64_mod - calc b s c true) % u64_mod;
          }))
  unfolding clear_region
  clear_region_inside b s c h small = ground arith

  -- Clearing a region inside a valid bitmap gives a valid bitmap of the same size in which
  -- exactly the blocks of the region were removed, and the counter shrank by those marked
  -- before.
  pub clear_region-Wrote :
      (b : Bitmap) (s c : ℕ) → IsValid b → s + c ≤ b.total → Wrote false b (clear_region b s c) s c
  clear_region-Wrote b s c v h = elim (clear_region_inside b s c h v.small) [
    | inl (same, none) ↦ rw (same, none) (empty-Wrote false b s v)
    | inr written ↦ rw written (
        overwrite-Wrote false b s c (clear_bits b.bytes s c) _ v h
          (length-clear_bits b.bytes s c (omega (arith, v.room)))
          (λ j. clear_bits_lem b.bytes s c j (omega (arith, v.room)))
          (omega (
            arith,
            v.small,
            v.counted,
            calc_lem b s c true v.room (omega (arith, v.small)),
            count_in-not (contents b) s c,
            count_in-false s c,
            count_in_parts-le b v s c h,
          )))
  ]

  -- A region of at least one block that ends beyond the last block, without wrapping in 64
  -- bits, is neither marked nor cleared: the bitmap stays as it is.
  pub region_outside :
      (b : Bitmap) (s c : ℕ)
      → 0 < c
      → s + c < u64_mod
      → b.total < s + c
      → (mark_region b s c ≡ b) × (clear_region b s c ≡ b)
  unfolding mark_region clear_region
  region_outside b s c pos small h = ground arith

  calc_wraps :
      (b : Bitmap) (s c : ℕ) → s < u64_mod → c < u64_mod → u64_mod ≤ s + c → calc b s c false ≡ 0
  unfolding calc calc_loop
  calc_wraps b s c hs hc wraps =
      ap (λ n. calc_loop b false n s 0) {x = (s + c) % u64_mod - s} {y = 0} (omega arith)

  -- A region that starts inside the bitmap and whose end wraps round beyond 2 ^ 64 passes both
  -- bound checks of reiser4_bitmap_mark_region: the bits are written from its start on for its
  -- whole length, and none is counted.
  pub mark_region_wraps :
      (b : Bitmap) (s c : ℕ)
      → b.total < u64_mod
      → s < b.total
      → c < u64_mod
      → u64_mod < s + c
      → mark_region b s c
        ≡ record b { bytes = set_bits b.bytes s c; marked = (b.marked + 0) % u64_mod }
  unfolding mark_region
  mark_region_wraps b s c small inside word wraps =
      ground (arith, calc_wraps b s c (omega arith) word (omega arith))
