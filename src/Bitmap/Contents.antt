-- ===== src/Bitmap/Contents.antt =====
-- What a bitmap holds: a set of block numbers below `total`, and its counter. `IsValid` ties the two.
use reiser4progs.Prelude.{
  to_nat, ℕ, zero, suc, ◌+◌, ◌-◌, ◌*◌, ◌%◌, ◌≤◌, ◌<◌, ◌≡◌, ◌∙◌, ap, Bool, true, false, not, leb,
  if◌then◌else◌, length, count_in, count_in-le, u64_mod, arith,
}
use reiser4progs.Aal.{Aal, bit_at}
use reiser4progs.Bitmap.{Bitmap, size_for, flag, test, calc_loop, calc}

-- The blocks that are marked.
unfoldable pub contents : Bitmap → ℕ → Bool
contents b j = if leb b.total j then false else bit_at b.bytes j

-- Equal, as a Boolean, to the bit where `marked`, to its negation where not.
abbrev pub valued : Bool → Bool → Bool
valued true v = v
valued false v = not v

pub record IsValid (b : Bitmap) : Type 0 where
  pub small : b.total < u64_mod
  pub sized : b.size ≡ length b.bytes
  pub exact : b.size ≡ size_for b.total
  pub room : b.total ≤ 8 * length b.bytes
  pub counted : b.marked ≡ count_in (contents b) 0 b.total

pub marked-le : {b : Bitmap} → IsValid b → b.marked ≤ b.total
marked-le {b} v = omega (arith, v.counted, count_in-le (contents b) 0 b.total)

module _ ⦃aal : Aal⦄ where
  open aal use {test_bit_lem}

  -- `test` reads the contents.
  pub test-contents :
      (b : Bitmap) → b.total ≤ 8 * length b.bytes → (j : ℕ) → test b j ≡ contents b j
  unfolding test contents
  test-contents b room j = ground (arith, test_bit_lem b.bytes j)

  calc_loop_lem :
      (b : Bitmap) (marked : Bool) (n i bits : ℕ)
      → b.total ≤ 8 * length b.bytes
      → calc_loop b marked n i bits ≡ bits + count_in (λ j. valued marked (contents b j)) i n
  unfolding calc_loop count_in
  calc_loop_lem b marked zero i bits room = omega arith
  calc_loop_lem b marked (suc n) i bits room =
      calc_loop_lem b marked n (i + 1) _ room
      ∙ rw (test-contents b room i) (one (contents b i) marked)
    where
      one :
          (v m : Bool)
          → bits
              + (if v then flag m else flag (not m))
              + count_in (λ j. valued marked (contents b j)) (i + 1) n
            ≡ bits + (to_nat (valued m v) + count_in (λ j. valued marked (contents b j)) (i + 1) n)
      one true true = omega arith
      one true false = omega arith
      one false true = omega arith
      one false false = omega arith

  -- The loop counts the blocks of the region with the value wanted, where the region does not wrap.
  pub calc_lem :
      (b : Bitmap) (start count : ℕ) (marked : Bool)
      → b.total ≤ 8 * length b.bytes
      → start + count < u64_mod
      → calc b start count marked ≡ count_in (λ j. valued marked (contents b j)) start count
  unfolding calc
  calc_lem b start count marked room small =
      calc_loop_lem b marked ((start + count) % u64_mod - start) start 0 room
      ∙ omega (
        arith,
        ap (count_in (λ j. valued marked (contents b j)) start)
            {x = (start + count) % u64_mod - start} {y = count} (omega arith),
      )
