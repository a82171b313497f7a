-- ===== src/Bitmap/Block.antt =====
-- reiser4_bitmap_mark and _clear, on a single block.
use reiser4progs.Prelude.{
  ℕ, ◌+◌, ◌-◌, ◌%◌, ◌<◌, ◌≡◌, ◌∙◌, sym, ap, true, false, inl, inr, to_nat, u64_mod, arith,
  Bool-cases,
}
use reiser4progs.Aal.{Aal}
use reiser4progs.Bitmap.{Bitmap, mark, clear}
use reiser4progs.Bitmap.Contents.{contents, IsValid}
use reiser4progs.Bitmap.Overwrite.{
  Wrote, bit-Wrote, unchanged-Wrote, contents-inside, count_in-one, count_in_parts-le,
}

module _ ⦃aal : Aal⦄ where
  open aal use {
    test_bit_lem, set_bit_lem, clear_bit_lem, set_bits_lem, clear_bits_lem, length-set_bit,
    length-clear_bit, length-set_bits, length-clear_bits, set_bits, clear_bits, test_bit, set_bit,
    clear_bit,
  }

  -- Marking a block of a valid bitmap gives a valid bitmap in which that block and no other was
  -- added, and the counter grew by one if it was new.
  pub mark-Wrote :
      (b : Bitmap) (bit : ℕ) → IsValid b → bit < b.total → Wrote true b (mark b bit) bit 1
  unfolding mark
  mark-Wrote b bit v h = elim (Bool-cases (contents b bit)) [
    | inl old ↦ rw (mark_held old) (unchanged-Wrote true b bit v old)
    | inr new ↦ rw (mark_new new) (
        bit-Wrote true b bit (set_bit b.bytes bit) _ v h
          (length-set_bit b.bytes bit (omega (arith, v.room)))
          (λ j. set_bit_lem b.bytes bit j (omega (arith, v.room)))
          (rw new (
            omega (
              arith,
              v.small,
              count_in_parts-le b v bit 1 (omega arith),
              count_in-one (contents b) bit,
              ap to_nat new,
            ))))
  ]
    where
      seen : test_bit b.bytes bit ≡ contents b bit
      seen = test_bit_lem b.bytes bit (omega (arith, v.room)) ∙ sym (contents-inside b bit h)

      mark_held : contents b bit ≡ true → mark b bit ≡ b
      mark_held old = ground (arith, seen)

      mark_new :
          contents b bit ≡ false
          → mark b bit ≡ record b { bytes = set_bit b.bytes bit; marked = (b.marked + 1) % u64_mod }
      mark_new new = ground (arith, seen)

  -- Clearing a block of a valid bitmap gives a valid bitmap in which that block and no other
  -- was removed, and the counter shrank by one if it was marked.
  pub clear-Wrote :
      (b : Bitmap) (bit : ℕ) → IsValid b → bit < b.total → Wrote false b (clear b bit) bit 1
  unfolding clear
  clear-Wrote b bit v h = elim (Bool-cases (contents b bit)) [
    | inr old ↦ rw (clear_held old) (unchanged-Wrote false b bit v old)
    | inl new ↦ rw (clear_new new) (
        bit-Wrote false b bit (clear_bit b.bytes bit) _ v h
          (length-clear_bit b.bytes bit (omega (arith, v.room)))
          (λ j. clear_bit_lem b.bytes bit j (omega (arith, v.room)))
          (rw new (
            omega (
              arith,
              v.small,
              count_in_parts-le b v bit 1 (omega arith),
              count_in-one (contents b) bit,
              ap to_nat new,
            ))))
  ]
    where
      seen : test_bit b.bytes bit ≡ contents b bit
      seen = test_bit_lem b.bytes bit (omega (arith, v.room)) ∙ sym (contents-inside b bit h)

      clear_held : contents b bit ≡ false → clear b bit ≡ b
      clear_held old = ground (arith, seen)

      clear_new :
          contents b bit ≡ true
          → clear b bit ≡ record b {
            bytes = clear_bit b.bytes bit;
            marked = (b.marked + u64_mod - 1) % u64_mod;
          }
      clear_new new = ground (arith, seen)
