-- ===== src/Bitmap/Tests.antt =====
-- Runs of libreiser4/bitmap.c on a bitmap of twelve blocks, three of them marked, over the reference
-- bit arrays; and the theorems applied to it.
use reiser4progs.Prelude.{
  ℕ, ◌+◌, ◌-◌, ◌%◌, ◌≤◌, ◌<◌, ◌≡◌, ◌≢◌, ◌↔◌, refl, Bool, true, false, some, List, [], ◌∷◌, leb,
  if◌then◌else◌, count_in, arith, u64_mod,
}
use reiser4progs.Aal.{bit_at}
use reiser4progs.Aal.Reference.{reference, opened}
use reiser4progs.Aal.Stream.{little_endian}
use reiser4progs.Bitmap.{
  Bitmap, test, mark_region, clear_region, find_cleared, find_marked, find_region, test_region,
  calc, calc_loop, calc_marked, calc_cleared, resize, invert, size_for, clear_loop, resized_bytes,
}
use reiser4progs.Bitmap.Contents.{contents, IsValid}
use reiser4progs.Bitmap.Overwrite.{Wrote}
use reiser4progs.Bitmap.Region.{
  mark_region-Wrote, clear_region-Wrote, region_outside, mark_region_wraps,
}
use reiser4progs.Bitmap.Find.{Found, find_cleared-Found, test_region_iff}
use reiser4progs.Bitmap.Resize.{calc_marked_lem, resize-IsValid, contents-resize}
use reiser4progs.Bitmap.Pack.{pack, unpack, unpack_loop, out_of_fuel}
use reiser4progs.Bitmap.Pack.Roundtrip.{pack-unpack, unpack_loop_enough}

-- Blocks 0, 2 and 11 of twelve.
abbrev sample : Bitmap
sample = record { marked = 3; total = 12; size = 2; bytes = 5 ∷ 8 ∷ [] }

abbrev no_failure : ℕ → Bool
no_failure i = true

sample-IsValid : IsValid sample
unfolding count_in contents bit_at
sample-IsValid = record {
  small = omega arith;
  sized = refl;
  exact = refl;
  room = omega arith;
  counted = refl;
}

mark_region_run :
    mark_region sample 1 4 ≡ record { marked = 6; total = 12; size = 2; bytes = 31 ∷ 8 ∷ [] }
unfolding mark_region calc calc_loop test opened
mark_region_run = refl

find_run :
    (find_cleared sample 0 ≡ 1)
    × (find_marked sample 3 ≡ 11)
    × (find_region sample 0 20 false ≡ (1, 1))
unfolding find_cleared find_marked find_region opened
find_run = (refl, refl, refl)

invert_run : invert sample ≡ record { marked = 9; total = 12; size = 2; bytes = 250 ∷ 7 ∷ [] }
unfolding invert clear_loop opened
invert_run = refl

mark_region-Wrote_example : Wrote true sample (mark_region sample 1 4) 1 4
mark_region-Wrote_example = mark_region-Wrote sample 1 4 sample-IsValid (omega arith)

clear_region-Wrote_example : Wrote false sample (clear_region sample 1 11) 1 11
clear_region-Wrote_example = clear_region-Wrote sample 1 11 sample-IsValid (omega arith)

region_outside_example : (mark_region sample 10 3 ≡ sample) × (clear_region sample 10 3 ≡ sample)
region_outside_example = region_outside sample 10 3 (omega arith) (omega arith) (omega arith)

mark_region_wraps_example : mark_region sample 8 (u64_mod - 1) ≡ record sample {
  bytes = reference.set_bits (sample.bytes) 8 (u64_mod - 1);
  marked = (sample.marked + 0) % u64_mod;
}
mark_region_wraps_example =
    mark_region_wraps sample 8 (u64_mod - 1) (omega arith) (omega arith) (omega arith) (omega arith)

find_cleared-Found_example : Found false sample 2 (find_cleared sample 2)
find_cleared-Found_example = find_cleared-Found sample 2 (omega arith)

test_region_iff_example :
    (test_region sample 3 8 false ≡ true)
    ↔ ((j : ℕ) → 3 ≤ j → j < 3 + 8 → contents sample j ≡ false)
test_region_iff_example =
    test_region_iff sample 3 8 false sample-IsValid (omega arith) (omega arith)

calc_marked_lem_example :
    ((calc_marked sample).1 ≡ count_in (contents sample) 0 12)
    × ((calc_marked sample).0.marked ≡ (calc_marked sample).1)
    × (calc_cleared sample + (calc_marked sample).1 ≡ 12)
calc_marked_lem_example = calc_marked_lem sample (omega arith) (omega arith)

resize-IsValid_example :
    IsValid (resize no_failure sample 3) × ((resize no_failure sample 3).total ≡ 3)
resize-IsValid_example =
    resize-IsValid no_failure sample 3 refl sample-IsValid (omega arith) (omega arith)

grows :
    (a b : ℕ) → a ≡ 5 → b ≡ 2 → a ≤ b → (j : ℕ) → 12 ≤ j → j < 40 → bit_at (sample.bytes) j ≡ false
grows a b e e' h j from lt = absurd (omega arith)

contents-resize_example :
    contents (resize no_failure sample 40) 11 ≡ (if leb 40 11 then false else contents sample 11)
contents-resize_example =
    contents-resize no_failure sample 40 refl sample-IsValid (omega arith) (omega arith)
      (grows (size_for 40) (sample.size) refl refl) 11

pack-unpack_example :
    (stream : List ℕ) × (c : Bitmap) × (pack sample [] ≡ some stream)
    × (unpack no_failure stream ≡ (some c, []))
    × IsValid c
    × (c.total ≡ 12)
    × (c.marked ≡ 3)
    × ((j : ℕ) → contents c j ≡ contents sample j)
pack-unpack_example = pack-unpack no_failure sample refl refl sample-IsValid (omega arith)

unpack_loop_enough_example :
    ((unpack_loop 3 sample 12 0 true (1 ∷ 0 ∷ [])).0 ≢ out_of_fuel)
    × (unpack_loop 3 sample 12 0 true (1 ∷ 0 ∷ []) ≡ unpack_loop 7 sample 12 0 true (1 ∷ 0 ∷ []))
unpack_loop_enough_example =
    unpack_loop_enough 3 7 sample 12 0 true (1 ∷ 0 ∷ []) (omega arith) (omega arith)

resize_run : resize no_failure sample 3 ≡ record { marked = 2; total = 3; size = 1; bytes = 5 ∷ [] }
unfolding resize resized_bytes calc_marked calc calc_loop test opened
resize_run = refl
