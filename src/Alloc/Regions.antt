-- ===== src/Alloc/Regions.antt =====
-- The allocator's operations on regions of blocks: alloc40_occupy, _release, _allocate, _occupied,
-- _available, _free, _used and _region.
use reiser4progs.Prelude.{
  ℕ, ◌+◌, ◌-◌, ◌*◌, ◌/◌, ◌%◌, ◌≤◌, ◌<◌, ◌≡◌, refl, ◌∙◌, Bool, true, false, inl, inr, ltb, ltb→lt,
  if◌then◌else◌, count_in_none, u64_mod, arith, Bool-cases,
}
use native.Mathlib.Nat.{mul-mod_left, div-add-mod, mod-lt}
use reiser4progs.Aal.{Aal, in_region, Run}
use reiser4progs.Bitmap.{Bitmap, find_region, mark_region}
use reiser4progs.Bitmap.Contents.{contents, IsValid, marked-le}
use reiser4progs.Bitmap.Overwrite.{Wrote, contents-inside, count_in-true}
use reiser4progs.Bitmap.Region.{mark_region-Wrote}
use reiser4progs.Bitmap.Find.{find_region-Run}
use reiser4progs.Alloc.{Alloc, bits_per_block, allocate, free, used, region}

-- The blocks in use.
unfoldable pub in_use : Alloc → ℕ → Bool
in_use alloc j = contents alloc.bitmap j

-- What an allocation may answer: `n` blocks from `s` on, all free before, and in use after, with
-- nothing else changed.
pub record Allocated (alloc alloc' : Alloc) (count n s : ℕ) : Type 0 where
  pub valid : IsValid alloc'.bitmap
  pub at_most : n ≤ count
  pub inside : 0 < n → s + n ≤ alloc.bitmap.total
  pub were_free : (j : ℕ) → s ≤ j → j < s + n → in_use alloc j ≡ false
  pub now_used : (j : ℕ) → in_use alloc' j ≡ (if in_region s n j then true else in_use alloc j)
  pub one_each : used alloc' ≡ used alloc + n
  pub dirtied : 0 < n → alloc'.dirty ≡ true

module _ ⦃aal : Aal⦄ where
  allocated :
      (alloc : Alloc) (count n s : ℕ)
      → IsValid alloc.bitmap
      → Run false alloc.bitmap.bytes alloc.bitmap.total count n s
      → 0 < n
      → Allocated alloc
          (record alloc { bitmap = mark_region alloc.bitmap s n; dirty = true })
          count
          n
          s
  unfolding in_use used
  allocated alloc count n s v run pos = record {
    valid = w.valid;
    at_most = run.fits;
    inside = run.inside;
    were_free = free_before;
    now_used = w.written;
    one_each =
        omega (
          arith,
          w.moved,
          count_in-true s n,
          count_in_none (contents alloc.bitmap) s n free_before,
        );
    dirtied = λ h. refl;
  }
    where
      w : Wrote true alloc.bitmap (mark_region alloc.bitmap s n) s n
      w = mark_region-Wrote alloc.bitmap s n v (run.inside pos)

      free_before : (j : ℕ) → s ≤ j → j < s + n → contents alloc.bitmap j ≡ false
      free_before j from lt =
          contents-inside alloc.bitmap j (omega (arith, run.inside pos)) ∙ run.same j from lt

  nothing-Allocated :
      (alloc : Alloc) (count s : ℕ) → IsValid alloc.bitmap → Allocated alloc alloc count 0 s
  unfolding in_region
  nothing-Allocated alloc count s v = record {
    valid = v;
    at_most = omega arith;
    inside = λ h. absurd (omega arith);
    were_free = λ j a b. absurd (omega arith);
    now_used = λ j. ground arith;
    one_each = omega arith;
    dirtied = λ h. absurd (omega arith);
  }

  Allocated-cong :
      {alloc alloc' : Alloc} {count n m s : ℕ}
      → m ≡ n
      → Allocated alloc alloc' count n s
      → Allocated alloc alloc' count m s
  Allocated-cong e a = rw e a

  -- On a valid bitmap, allocation hands out at most the blocks asked for, all of them inside
  -- the disk, free before and in use after; it changes no other block, keeps the bitmap valid,
  -- adds their number to the used blocks, and marks the allocator dirty if it hands out any.
  pub allocate-Allocated :
      (alloc : Alloc) (start count : ℕ)
      → IsValid alloc.bitmap
      → let (n, s, alloc') = allocate alloc start count in Allocated alloc alloc' count n s
  unfolding allocate
  allocate-Allocated alloc start count v =
      let (n, s) = find_region alloc.bitmap start count false in
      let run : Run false alloc.bitmap.bytes alloc.bitmap.total count n s =
        find_region-Run alloc.bitmap start count false v in
      elim (Bool-cases (ltb 0 n)) [
        | inl found ↦ rw found (allocated alloc count n s v run (ltb→lt 0 n found))
        | inr none ↦ rw none (Allocated-cong (ground arith) (nothing-Allocated alloc count s v))
      ]

  -- On a valid bitmap, the used and the free blocks together are all blocks of the disk.
  pub used-add-free :
      (alloc : Alloc) → IsValid alloc.bitmap → used alloc + free alloc ≡ alloc.bitmap.total
  unfolding used free
  used-add-free alloc v = omega (arith, marked-le v, v.small)

-- The arithmetic of alloc40_region, for `size` blocks to a bitmap block.
region_bounds :
    (size total blk : ℕ)
    → 0 < size
    → blk < total
    → total + size ≤ u64_mod
    → let start = blk / size * size in
      let n =
        if ltb total ((start + size) % u64_mod)
        then (total + u64_mod - start) % u64_mod
        else size in
      (start % size ≡ 0) × (start ≤ blk) × (blk < start + n) × (start + n ≤ total) × (n ≤ size)
region_bounds size total blk pos h small = (
  mul-mod_left (blk / size) size,
  omega (arith, whole),
  ground (arith, whole),
  ground (arith, whole),
  ground (arith, whole),
)
  where
    whole : (blk / size * size + blk % size ≡ blk) × (blk % size < size)
    whole = (omega (arith, div-add-mod blk size), mod-lt blk pos)

-- For a block of a disk, where a bitmap block describes any block, and the size of the disk and
-- the bits of a bitmap block together are at most 2 ^ 64: the region of the block begins at a
-- multiple of the bits of one bitmap block, holds the block, is not longer than these bits, and
-- ends at the end of the disk at the latest.
pub region_lem :
    (alloc : Alloc) (blk : ℕ)
    → 0 < bits_per_block alloc.blksize
    → blk < alloc.bitmap.total
    → alloc.bitmap.total + bits_per_block alloc.blksize ≤ u64_mod
    → let (start, n) = region alloc blk in
      (start % bits_per_block alloc.blksize ≡ 0)
      × (start ≤ blk)
      × (blk < start + n)
      × (start + n ≤ alloc.bitmap.total)
      × (n ≤ bits_per_block alloc.blksize)
unfolding region
region_lem alloc blk pos h small =
    region_bounds (bits_per_block alloc.blksize) alloc.bitmap.total blk pos h small
