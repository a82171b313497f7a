-- ===== src/Bitmap/Find.antt =====
-- The searches of bitmap.c: the next cleared or marked block, the test of a whole region, and the
-- search for a region.
use reiser4progs.Prelude.{
  ℕ, ◌+◌, ◌-◌, ◌*◌, ◌%◌, ◌≤◌, ◌<◌, ◌≡◌, ◌↔◌, ◌∙◌, Bool, true, false, not, inl, inr, ltb, leb,
  if◌then◌else◌, ◌&&◌, length, u64_mod, arith, Bool-cases,
}
use reiser4progs.Aal.{Aal, Finds, Run}
use reiser4progs.Bitmap.{Bitmap, find_cleared, find_marked, test_region, find_region}
use reiser4progs.Bitmap.Contents.{contents, IsValid}
use reiser4progs.Bitmap.Overwrite.{contents-inside}

-- What a search for the value `v` from `start` on reports: the first such block, or that there is
-- none, by the value INVAL_BLK.
pub data Found (v : Bool) (b : Bitmap) (start r : ℕ) : Type 0 where
  absent :
      r ≡ u64_mod - 1
      → ((j : ℕ) → start ≤ j → j < b.total → contents b j ≡ not v)
      → Found v b start r
  present :
      start ≤ r
      → r < b.total
      → contents b r ≡ v
      → ((j : ℕ) → start ≤ j → j < r → contents b j ≡ not v)
      → Found v b start r

-- The last step of both searches: a bit beyond the end is no block.
search_end :
    (v : Bool) (b : Bitmap) (start bit inval : ℕ)
    → inval ≡ u64_mod - 1
    → Finds v b.bytes b.total start bit
    → Found v b start (if leb b.total bit then inval else bit)
search_end v b start bit inval e found = elim (Bool-cases (leb b.total bit)) [
  | inl beyond ↦
      rw beyond
        (absent e (λ j from lt. contents-inside b j lt ∙ found.first j from (ground arith) lt))
  | inr inside ↦ rw inside (
      present found.from (ground arith)
        (contents-inside b bit (ground arith) ∙ found.hit (ground arith))
        (λ j from lt. contents-inside b j (ground arith) ∙ found.first j from lt (ground arith)))
]

module _ ⦃aal : Aal⦄ where
  open aal use {
    inval_blk, inval_blk_lem, find_next_zero_bit, find_next_set_bit, find_next_zero_bit_lem,
    find_next_set_bit_lem, find_zero_bits_lem, find_set_bits_lem,
  }

  -- Where the map has room for the bitmap, the search gives the first cleared block from
  -- `start` on, or INVAL_BLK where all of them are marked.
  pub find_cleared-Found :
      (b : Bitmap) (start : ℕ)
      → b.total ≤ 8 * length b.bytes
      → Found false b start (find_cleared b start)
  unfolding find_cleared
  find_cleared-Found b start room = elim (Bool-cases (leb b.total start)) [
    | inl beyond ↦ rw beyond (absent inval_blk_lem (λ j from lt. absurd (ground arith)))
    | inr inside ↦ rw inside (
        search_end false b start _ inval_blk inval_blk_lem
          (find_next_zero_bit_lem b.bytes b.total start room (ground arith)))
  ]

  -- Where the map has room for the bitmap, the search gives the first marked block from `start`
  -- on, or INVAL_BLK where none of them is marked.
  pub find_marked-Found :
      (b : Bitmap) (start : ℕ)
      → b.total ≤ 8 * length b.bytes
      → Found true b start (find_marked b start)
  unfolding find_marked
  find_marked-Found b start room = elim (Bool-cases (leb b.total start)) [
    | inl beyond ↦ rw beyond (absent inval_blk_lem (λ j from lt. absurd (ground arith)))
    | inr inside ↦ rw inside (
        search_end true b start _ inval_blk inval_blk_lem
          (find_next_set_bit_lem b.bytes b.total start room (ground arith)))
  ]

-- A search finds nothing in [start, start + count) exactly if the region has the other value.
region_clear :
    (v : Bool) (b : Bitmap) (start count next : ℕ)
    → Found v b start next
    → start + count ≤ b.total
    → b.total < u64_mod
    → (not (leb start next && ltb next ((start + count) % u64_mod)) ≡ true)
      ↔ ((j : ℕ) → start ≤ j → j < start + count → contents b j ≡ not v)
region_clear v b start count next (absent e none) h small =
    (λ t j from lt. none j from (omega arith), λ all. ground arith)
region_clear v b start count next (present from inside here before) h small = (
  λ t j from' lt. before j from' (ground arith),
  λ all. elim (Bool-cases (ltb next (start + count))) [
    | inl hit ↦ absurd (not_both v (contents b next) here (all next from (ground arith)))
    | inr miss ↦ ground arith
  ],
)
  where
    not_both : (v w : Bool) → w ≡ v → w ≡ not v → ⊥
    not_both true w p q = cc
    not_both false w p q = cc

module _ ⦃aal : Aal⦄ where
  open aal use {find_zero_bits_lem, find_set_bits_lem}

  test_region_inside :
      (b : Bitmap) (start count : ℕ) (marked : Bool)
      → 0 < count
      → start + count ≤ b.total
      → b.total < u64_mod
      → test_region b start count marked ≡ (
          let next = if marked then find_cleared b start else find_marked b start in
          not (leb start next && ltb next ((start + count) % u64_mod)))
  unfolding test_region
  test_region_inside b start count marked pos h small = ground arith

  -- For a region of at least one block inside a valid bitmap, the test answers yes exactly if
  -- every block of the region has the value asked for.
  pub test_region_iff :
      (b : Bitmap) (start count : ℕ) (marked : Bool)
      → IsValid b
      → 0 < count
      → start + count ≤ b.total
      → (test_region b start count marked ≡ true)
        ↔ ((j : ℕ) → start ≤ j → j < start + count → contents b j ≡ marked)
  test_region_iff b start count true v pos h =
      rw (test_region_inside b start count true pos h v.small) (
        region_clear false b start count (find_cleared b start) (find_cleared-Found b start v.room)
          h v.small)
  test_region_iff b start count false v pos h =
      rw (test_region_inside b start count false pos h v.small) (
        region_clear true b start count (find_marked b start) (find_marked-Found b start v.room) h
          v.small)

  -- What reaches beyond the last block fails the test, whatever its blocks hold.
  pub test_region_outside :
      (b : Bitmap) (start count : ℕ) (marked : Bool)
      → 0 < count
      → start + count < u64_mod
      → b.total < start + count
      → test_region b start count marked ≡ false
  unfolding test_region
  test_region_outside b start count marked pos small h = ground arith

  pub find_region-Run :
      (b : Bitmap) (start count : ℕ) (marked : Bool)
      → IsValid b
      → let (n, s) = find_region b start count marked in Run marked b.bytes b.total count n s
  unfolding find_region
  find_region-Run b start count true v = find_set_bits_lem b.bytes b.total start count v.room
  find_region-Run b start count false v = find_zero_bits_lem b.bytes b.total start count v.room
