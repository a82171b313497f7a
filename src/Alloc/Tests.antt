-- ===== src/Alloc/Tests.antt =====
-- Runs of plugin/alloc/alloc40/alloc40.c, and the theorems applied to them.
use reiser4progs.Prelude.{
  ℕ, ◌+◌, ◌-◌, ◌/◌, ◌%◌, ◌≤◌, ◌<◌, ◌≡◌, ◌≢◌, refl, true, false, some, [], ◌∷◌, length, count_in,
  arith,
}
use reiser4progs.Aal.{bit_at}
use reiser4progs.Aal.Reference.{reference}
use reiser4progs.Aal.Device.{faultless}
use reiser4progs.Bitmap.Contents.{contents, IsValid}
use reiser4progs.Alloc.{Alloc, map_size, create_alloc, layout, region, allocate, layout_loop}
use reiser4progs.Alloc.Regions.{Allocated, allocate-Allocated, region_lem}
use reiser4progs.Alloc.Create.{create_alloc_lem}

-- Twelve blocks of 4096 bytes, of which 0, 2 and 11 are in use.
abbrev small : Alloc
small = record {
  dirty = false;
  blksize = 4096;
  bitmap = record { marked = 3; total = 12; size = 2; bytes = 5 ∷ 8 ∷ [] };
  crc = 0 ∷ [];
}

small-IsValid : IsValid (small.bitmap)
unfolding count_in contents bit_at
small-IsValid = record {
  small = omega arith;
  sized = refl;
  exact = refl;
  room = omega arith;
  counted = refl;
}

-- 40000 blocks: more than one bitmap block describes.
abbrev large : Alloc
large = record {
  dirty = false;
  blksize = 4096;
  bitmap = record { marked = 0; total = 40000; size = 5000; bytes = [] };
  crc = [];
}

region_run : region large 39999 ≡ (32736, 7264)
unfolding region
region_run = refl

allocate-Allocated_example : let (n, s, alloc') = allocate small 3 5 in Allocated small alloc' 5 n s
allocate-Allocated_example = allocate-Allocated small 3 5 small-IsValid

region_lem_example :
    let (start, n) = region large 39999 in
    (start % 32736 ≡ 0) × (start ≤ 39999) × (39999 < start + n) × (start + n ≤ 40000) × (n ≤ 32736)
region_lem_example = region_lem large 39999 (omega arith) (omega arith) (omega arith)

-- A callback that counts its calls.
abbrev counting : ℕ → ℕ → ℕ × ℕ
counting blk calls = (0, calls + 1)

layout_run : layout large counting 0 ≡ (0, 2)
unfolding layout layout_loop
layout_run = refl

create_alloc_lem_example :
    (alloc : Alloc) × (create_alloc (λ i. true) 512 100 ≡ some alloc)
    × (alloc.dirty ≡ true)
    × IsValid alloc.bitmap
    × (alloc.bitmap.total ≡ 100)
    × ((j : ℕ) → contents alloc.bitmap j ≡ false)
    × (length alloc.crc ≡ alloc.bitmap.size / map_size 512)
    × (alloc.bitmap.size % map_size 512 ≢ 0
        → length alloc.crc ≤ (alloc.bitmap.size - 1) / map_size 512)
create_alloc_lem_example =
    create_alloc_lem (λ i. true) 512 100 (λ i. refl) (omega arith) (omega arith)
