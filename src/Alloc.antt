-- ===== src/Alloc.antt =====
-- plugin/alloc/alloc40/alloc40.c: the block allocator, a bitmap kept in bitmap blocks with checksums.
-- A function that changes `*alloc` returns the new allocator; the disk is passed beside it. `crc` is
-- the array of uint32_t at `alloc->crc`; an access outside it reads 0 and writes nothing.
pub mod Layout
pub mod Regions
pub mod Create
mod Tests
use reiser4progs.Prelude.{
  ℕ, zero, suc, ◌+◌, ◌-◌, ◌*◌, ◌/◌, ◌%◌, Bool, true, false, not, Option, none, some, List, [], ◌∷◌,
  ◌++◌, ltb, leb, ◌==◌, if◌then◌else◌, ◌&&◌, length, take, drop, replicate, get_or, set, bit_or,
  u32_mod, u64_mod, bytes_of, of_bytes,
}
use reiser4progs.Aal.{Aal}
use reiser4progs.Aal.Device.{Device, Disk}
use reiser4progs.Bitmap.{
  Bitmap, create, calc_marked, mark_region, clear_region, find_region, test_region,
  marked as bitmap_marked, cleared as bitmap_cleared,
}
use reiser4progs.Aux.Adler.{adler32}

-- alloc40_t. Of `state` the code uses the bit ENTITY_DIRTY alone.
pub record Alloc : Type 0 where
  pub dirty : Bool
  pub blksize : ℕ
  pub bitmap : Bitmap
  pub crc : List ℕ

abbrev pub crc_size : ℕ
crc_size = 4

-- Bytes of map in one bitmap block, and blocks that it describes, as uint32_t.
abbrev pub map_size : ℕ → ℕ
map_size blksize = (blksize + u32_mod - crc_size) % u32_mod

abbrev pub bits_per_block : ℕ → ℕ
bits_per_block blksize = map_size blksize * 8 % u32_mod

-- ALLOC40_BLOCKNR
abbrev pub alloc40_blocknr : ℕ → ℕ
alloc40_blocknr blksize = 65536 / blksize + 2

-- memcpy(m + pos, src, n), of which the part outside `m` is lost.
unfoldable pub copy_to : List ℕ → ℕ → List ℕ → List ℕ
copy_to m pos src = take pos m ++ take (length m - pos) src ++ drop (pos + length src) m

unfoldable pub get_state : Alloc → Bool
get_state alloc = alloc.dirty

unfoldable pub set_state : Alloc → Bool → Alloc
set_state alloc state = record alloc { dirty = state }

-- alloc40_assign and alloc40_extract copy a bitmap of the same length in and out.
unfoldable pub assign : Alloc → Bitmap → Alloc
assign alloc bitmap = record alloc {
  bitmap = record (alloc.bitmap) {
    bytes = copy_to alloc.bitmap.bytes 0 (take bitmap.size bitmap.bytes);
    marked = bitmap.marked;
  };
  dirty = true;
}

unfoldable pub extract : Alloc → Bitmap → Bitmap
extract alloc bitmap = record bitmap {
  bytes = copy_to bitmap.bytes 0 (take bitmap.size alloc.bitmap.bytes);
  marked = alloc.bitmap.marked;
}

unfoldable pub free : Alloc → ℕ
unfolding bitmap_cleared
free alloc = bitmap_cleared alloc.bitmap

unfoldable pub used : Alloc → ℕ
unfolding bitmap_marked
used alloc = bitmap_marked alloc.bitmap

-- The region that alloc40_region passes on: its start and its length.
unfoldable pub region : Alloc → ℕ → ℕ × ℕ
region alloc blk =
    let size = bits_per_block alloc.blksize in
    let start = blk / size * size in
    (
      start,
      if ltb alloc.bitmap.total ((start + size) % u64_mod)
          then (alloc.bitmap.total + u64_mod - start) % u64_mod
          else size,
    )

module _ ⦃dev : Device⦄ {S : Type 0} (region_func : ℕ → S → ℕ × S) (bpb limit : ℕ) where
  open dev use {estruct}

  -- The loop of alloc40_layout over the bitmap blocks below `limit`. An error other than -ESTRUCT
  -- ends it. The fuel counts the rounds.
  unfoldable pub layout_loop : ℕ → ℕ → ℕ → S → ℕ × S
  layout_loop zero blk res st = (res, st)
  layout_loop (suc fuel) blk res st =
      let (e, st') = region_func blk st in
      let res' = bit_or res e in
      let rest = layout_loop fuel ((blk / bpb + 1) * bpb % u64_mod) res' st' in
      if ltb blk limit
      then if not (res' == 0) && not (res' == estruct) then (res', st') else rest
      else (res, st)

module _ ⦃dev : Device⦄ where
  open dev use {estruct, enomem, block_init, block_read, block_write}

  unfoldable pub layout : {S : Type 0} → Alloc → (ℕ → S → ℕ × S) → S → ℕ × S
  layout alloc region_func st =
      let start = alloc40_blocknr alloc.blksize in
      let limit = (start + alloc.bitmap.total) % u64_mod in
      layout_loop region_func (bits_per_block alloc.blksize) limit (alloc.bitmap.total + 1) start 0
        st

  -- The byte of the map where the bitmap block `start` begins.
  abbrev pub map_offset : Alloc → ℕ → ℕ
  map_offset alloc start = map_size alloc.blksize * (start / map_size alloc.blksize / 8)

  -- How much of the map lies from there on, at most a block; the pointer difference is taken for
  -- a uint32_t.
  abbrev pub fetch_chunk : Alloc → ℕ → ℕ
  fetch_chunk alloc start =
      let size = map_size alloc.blksize in
      let free = (alloc.bitmap.size + u64_mod - map_offset alloc start) % u64_mod % u32_mod in
      if ltb size free then size else free

  -- The same chunk as cb_sync_bitmap has it, which compares signed numbers.
  abbrev pub sync_chunk : Alloc → ℕ → ℕ
  sync_chunk alloc start =
      let size = map_size alloc.blksize in
      if ltb size (alloc.bitmap.size - map_offset alloc start)
      then size
      else (alloc.bitmap.size + u64_mod - map_offset alloc start) % u64_mod % u32_mod

  -- cb_fetch_bitmap
  unfoldable pub fetch_bitmap : Disk → ℕ → Alloc → ℕ × Alloc
  fetch_bitmap disk start alloc =
      if not (block_init start == 0)
      then (block_init start, alloc)
      else let (e, block) = block_read disk start in
        if not (e == 0)
        then (e, alloc)
        else let chunk = take (fetch_chunk alloc start) (drop crc_size block) in
          (
            0,
            record alloc {
              bitmap = record (alloc.bitmap) {
                bytes = copy_to alloc.bitmap.bytes (map_offset alloc start) chunk;
              };
              crc =
                  set alloc.crc (start / map_size alloc.blksize / 8)
                    (of_bytes (take crc_size block));
            },
          )

  -- The bytes of the map that a bitmap block holds, filled up with 0xff.
  unfoldable pub padded_map : Alloc → ℕ → ℕ → List ℕ
  padded_map alloc start chunk =
      take chunk (drop (map_offset alloc start) alloc.bitmap.bytes)
      ++ replicate (map_size alloc.blksize - chunk) 0xff

  -- cb_sync_bitmap. `mem` is the outcome of the aal_calloc for a partial block.
  unfoldable pub sync_bitmap : Bool → Alloc → ℕ → Disk → ℕ × Disk
  sync_bitmap mem alloc start disk =
      let chunk = sync_chunk alloc start in
      let map = padded_map alloc start chunk in
      if not (block_init start == 0)
      then (block_init start, disk)
      else if ltb chunk (map_size alloc.blksize) && not mem
      then (enomem, disk)
      else block_write disk start (bytes_of crc_size (adler32 0 map) ++ map)

  -- cb_valid_block, without the message.
  unfoldable pub valid_block : Bool → Alloc → ℕ → ℕ
  valid_block mem alloc start =
      let chunk = fetch_chunk alloc start in
      let ladler = get_or alloc.crc (start / map_size alloc.blksize / 8) 0 in
      if ltb chunk (map_size alloc.blksize) && not mem
      then enomem
      else if not (ladler == adler32 0 (padded_map alloc start chunk))
      then estruct
      else 0

  unfoldable pub sync : Bool → Alloc → Disk → ℕ × Alloc × Disk
  sync mem alloc disk =
      let (res, disk') = layout alloc (sync_bitmap mem alloc) disk in
      if not (res == 0) then (res, alloc, disk') else (res, record alloc { dirty = false }, disk')

  unfoldable pub valid : Bool → Alloc → ℕ
  valid mem alloc = (layout alloc (λ blk st. (valid_block mem alloc blk, st)) tt).0

module _ ⦃aal : Aal⦄ ⦃dev : Device⦄ where
  -- The second half of alloc40_open: the map is loaded block by block, then counted. The bitmap is
  -- fresh; `mem` is the outcome of the aal_calloc of the checksums.
  unfoldable pub open_bitmap : Bool → Disk → ℕ → Bitmap → Option Alloc
  open_bitmap mem disk blksize bitmap =
      let size = map_size blksize in
      let crcsize = (bitmap.size + size + u32_mod - 1) % u32_mod / size * crc_size % u32_mod in
      let fresh : Alloc = record {
        dirty = false;
        blksize = blksize;
        bitmap = bitmap;
        crc = replicate (crcsize / crc_size) 0;
      } in
      let (res, alloc) = layout fresh (fetch_bitmap disk) fresh in
      if not mem
      then none
      else if not (res == 0)
      then none
      else some (record alloc { bitmap = (calc_marked alloc.bitmap).0 })

  -- alloc40_open: the aal_calloc of the allocator, the two of the bitmap, the one of the checksums.
  unfoldable pub open_alloc : (ℕ → Bool) → Disk → ℕ → ℕ → Option Alloc
  open_alloc mem disk blksize blocks =
      if not (mem 0) then none else elim (create (λ i. mem (i + 1)) blocks) [
        | none ↦ none
        | some bitmap ↦ open_bitmap (mem 3) disk blksize bitmap
      ]

module _ ⦃aal : Aal⦄ where
  -- alloc40_create: nothing is loaded, and the checksums are counted rounding down.
  unfoldable pub create_alloc : (ℕ → Bool) → ℕ → ℕ → Option Alloc
  create_alloc mem blksize blocks =
      if not (mem 0) then none else elim (create (λ i. mem (i + 1)) blocks) [
        | none ↦ none
        | some bitmap ↦
            if not (mem 3)
            then none
            else some (record {
              dirty = true;
              blksize = blksize;
              bitmap = bitmap;
              crc = replicate (bitmap.size / map_size blksize) 0;
            })
      ]

  unfoldable pub occupy : Alloc → ℕ → ℕ → Alloc
  occupy alloc start count = record alloc {
    bitmap = mark_region alloc.bitmap start count;
    dirty = true;
  }

  unfoldable pub release : Alloc → ℕ → ℕ → Alloc
  release alloc start count = record alloc {
    bitmap = clear_region alloc.bitmap start count;
    dirty = true;
  }

  -- The number of blocks found, the new `*start`, and the allocator.
  unfoldable pub allocate : Alloc → ℕ → ℕ → ℕ × ℕ × Alloc
  allocate alloc start count =
      let (found, start') = find_region alloc.bitmap start count false in
      if ltb 0 found
      then (
        found,
        start',
        record alloc { bitmap = mark_region alloc.bitmap start' found; dirty = true },
      )
      else (found, start', alloc)

  unfoldable pub occupied : Alloc → ℕ → ℕ → Bool
  occupied alloc start count = test_region alloc.bitmap start count true

  unfoldable pub available : Alloc → ℕ → ℕ → Bool
  available alloc start count = test_region alloc.bitmap start count false
