-- ===== src/Alloc/Create.antt =====
-- alloc40_create: a new allocator without a map on disk, and the room that it makes for checksums.
use native.Mathlib.Nat.{div-add-mod, mod-lt}
use reiser4progs.Prelude.{
  ℕ, ◌+◌, ◌-◌, ◌*◌, ◌/◌, ◌%◌, ◌≤◌, ◌<◌, ◌≡◌, ◌≢◌, refl, Bool, true, false, some, length,
  length-replicate, u32_mod, arith, dec_lt, replicate,
}
use reiser4progs.Aal.{Aal}
use reiser4progs.Bitmap.Contents.{contents, IsValid}
use reiser4progs.Bitmap.Whole.{create-IsValid}
use reiser4progs.Alloc.{Alloc, map_size, create_alloc}

mul_mono : (a b c : ℕ) → a ≤ b → a * c ≤ b * c
mul_mono a b c h = grind arith

-- The slot of the last byte of the map, where the map does not end with a block.
last_slot : (size bytes : ℕ) → 0 < size → bytes % size ≢ 0 → bytes / size ≤ (bytes - 1) / size
last_slot size bytes pos partial = elim (dec_lt ((bytes - 1) / size) (bytes / size)) [
  | no fine ↦ omega arith
  | yes less ↦ absurd (
      omega (
        arith,
        div-add-mod bytes size,
        div-add-mod (bytes - 1) size,
        mod-lt (bytes - 1) pos,
        mul_mono ((bytes - 1) / size + 1) (bytes / size) size (omega arith),
      ))
]

module _ ⦃aal : Aal⦄ where
  -- Where all allocations succeed, a bitmap block holds any map, and there are fewer than 8 * 2
  -- ^ 32 - 7 blocks, a new allocator is dirty, has a valid bitmap of these blocks with none in
  -- use, and one checksum for every full block of map; where the map does not end with a block,
  -- the index of the checksum of its last bytes lies outside `crc`.
  pub create_alloc_lem :
      (mem : ℕ → Bool) (blksize blocks : ℕ)
      → ((i : ℕ) → mem i ≡ true)
      → 0 < map_size blksize
      → blocks + 7 < 8 * u32_mod
      → (alloc : Alloc) × (create_alloc mem blksize blocks ≡ some alloc)
        × (alloc.dirty ≡ true)
        × IsValid alloc.bitmap
        × (alloc.bitmap.total ≡ blocks)
        × ((j : ℕ) → contents alloc.bitmap j ≡ false)
        × (length alloc.crc ≡ alloc.bitmap.size / map_size blksize)
        × (alloc.bitmap.size % map_size blksize ≢ 0
            → length alloc.crc ≤ (alloc.bitmap.size - 1) / map_size blksize)
  unfolding create_alloc
  create_alloc_lem mem blksize blocks all pos small =
      let (b, made, v, total, empty) =
        create-IsValid (λ i. mem (i + 1)) blocks (all _) (all _) small in
      (
        record {
          dirty = true;
          blksize = blksize;
          bitmap = b;
          crc = replicate (b.size / map_size blksize) 0;
        },
        rw (all 0, made, all 3),
        refl,
        v,
        total,
        empty,
        length-replicate {A = ℕ} (b.size / map_size blksize) 0,
        λ partial. omega (
          arith,
          length-replicate {A = ℕ} (b.size / map_size blksize) 0,
          last_slot (map_size blksize) b.size pos partial,
        ),
      )
