-- ===== src/Bitmap.antt =====
-- libreiser4/bitmap.c: the bitmap of the block allocator. A function that changes `*bitmap` returns
-- the new bitmap. `mem i` is the outcome of the i-th aal_calloc that a call makes.
pub mod Contents
pub mod Overwrite
pub mod Bytes
pub mod Region
pub mod Block
pub mod Find
pub mod Whole
pub mod Resize
pub mod Pack
mod Tests
use reiser4progs.Prelude.{
  ℕ, zero, suc, ◌+◌, ◌-◌, ◌*◌, ◌/◌, ◌%◌, Bool, true, false, not, Option, none, some, List, [], ◌∷◌,
  ◌++◌, map, ltb, leb, if◌then◌else◌, ◌&&◌, length, take, replicate, u32_mod, u64_mod, u8_mod,
}
use reiser4progs.Aal.{Aal}

-- reiser4_bitmap_t; `bytes` is `map`, the memory that holds the bit array.
pub record Bitmap : Type 0 where
  pub marked : ℕ
  pub total : ℕ
  pub size : ℕ
  pub bytes : List ℕ

-- The last bit of a region, as a uint64_t; the bound checks test it.
abbrev pub last_bit : ℕ → ℕ → ℕ
last_bit start count = (start + count + u64_mod - 1) % u64_mod

-- `int marked` added to a uint64_t.
abbrev pub flag : Bool → ℕ
flag true = 1
flag false = 0

-- The uint32_t `size` of a bit array of `len` bits, and the uint32_t `size * 8`.
abbrev pub size_for : ℕ → ℕ
size_for len = (len + 7) % u64_mod / 8 % u32_mod

abbrev pub bits_of_size : ℕ → ℕ
bits_of_size size = size * 8 % u32_mod

unfoldable pub marked : Bitmap → ℕ
marked b = b.marked

unfoldable pub cleared : Bitmap → ℕ
cleared b = (b.total + u64_mod - b.marked) % u64_mod

module _ ⦃aal : Aal⦄ where
  open aal use {
    inval_blk, test_bit, set_bit, clear_bit, set_bits, clear_bits, find_next_zero_bit,
    find_next_set_bit, find_zero_bits, find_set_bits,
  }

  unfoldable pub mark : Bitmap → ℕ → Bitmap
  mark b bit =
      if leb b.total bit
      then b
      else if test_bit b.bytes bit
      then b
      else record b { bytes = set_bit b.bytes bit; marked = (b.marked + 1) % u64_mod }

  unfoldable pub clear : Bitmap → ℕ → Bitmap
  clear b bit =
      if leb b.total bit
      then b
      else if not (test_bit b.bytes bit)
      then b
      else record b { bytes = clear_bit b.bytes bit; marked = (b.marked + u64_mod - 1) % u64_mod }

  unfoldable pub test : Bitmap → ℕ → Bool
  test b bit = if leb b.total bit then false else test_bit b.bytes bit

  -- The loop of reiser4_bitmap_calc, with `n` rounds to go; `bits` counts at most one a round.
  unfoldable pub calc_loop : Bitmap → Bool → ℕ → ℕ → ℕ → ℕ
  calc_loop b marked zero i bits = bits
  calc_loop b marked (suc n) i bits =
      calc_loop b marked n (i + 1) (bits + (if test b i then flag marked else flag (not marked)))

  -- `start + count` is a uint64_t; the loop runs while `i` is below it.
  unfoldable pub calc : Bitmap → ℕ → ℕ → Bool → ℕ
  calc b start count marked = calc_loop b marked ((start + count) % u64_mod - start) start 0

  unfoldable pub mark_region : Bitmap → ℕ → ℕ → Bitmap
  mark_region b start count =
      if leb b.total start then b else if leb b.total (last_bit start count) then b else record b {
        bytes = set_bits b.bytes start count;
        marked = (b.marked + calc b start count false) % u64_mod;
      }

  unfoldable pub clear_region : Bitmap → ℕ → ℕ → Bitmap
  clear_region b start count =
      if leb b.total start then b else if leb b.total (last_bit start count) then b else record b {
        bytes = clear_bits b.bytes start count;
        marked = (b.marked + u64_mod - calc b start count true) % u64_mod;
      }

  unfoldable pub find_cleared : Bitmap → ℕ → ℕ
  find_cleared b start =
      if leb b.total start
      then inval_blk
      else let bit = find_next_zero_bit b.bytes b.total start in
        if leb b.total bit then inval_blk else bit

  unfoldable pub find_marked : Bitmap → ℕ → ℕ
  find_marked b start =
      if leb b.total start
      then inval_blk
      else let bit = find_next_set_bit b.bytes b.total start in
        if leb b.total bit then inval_blk else bit

  unfoldable pub test_region : Bitmap → ℕ → ℕ → Bool → Bool
  test_region b start count marked =
      if leb b.total start
      then false
      else if leb b.total (last_bit start count)
      then false
      else let next = if marked then find_cleared b start else find_marked b start in
        not (leb start next && ltb next ((start + count) % u64_mod))

  -- The length found, and the new `*start`.
  unfoldable pub find_region : Bitmap → ℕ → ℕ → Bool → ℕ × ℕ
  find_region b start count marked =
      if marked
      then find_set_bits b.bytes b.total start count
      else find_zero_bits b.bytes b.total start count

  unfoldable pub calc_marked : Bitmap → Bitmap × ℕ
  calc_marked b = let n = calc b 0 b.total true in (record b { marked = n }, n)

  unfoldable pub calc_cleared : Bitmap → ℕ
  calc_cleared b = calc b 0 b.total false

  -- aal_clear_bit from bit `i` on, for `n` rounds.
  unfoldable pub clear_loop : List ℕ → ℕ → ℕ → List ℕ
  clear_loop m i zero = m
  clear_loop m i (suc n) = clear_loop (clear_bit m i) (i + 1) n

  unfoldable pub create : (ℕ → Bool) → ℕ → Option Bitmap
  create mem len =
      if not (mem 0)
      then none
      else if not (mem 1)
      then none
      else some (record {
        marked = 0;
        total = len;
        size = size_for len;
        bytes = replicate (size_for len) 0;
      })

  -- The contents of the clone are the first `clone->size` bytes.
  unfoldable pub clone : (ℕ → Bool) → Bitmap → Option Bitmap
  clone mem b = elim (create mem b.total) [
    | none ↦ none
    | some c ↦ some (record c { marked = b.marked; bytes = take c.size b.bytes })
  ]

  -- The bytes of the new map: the old ones that fit, then zeros.
  unfoldable pub resized_bytes : Bitmap → ℕ → List ℕ
  resized_bytes b size =
      if ltb b.size size
      then clear_loop (take b.size b.bytes ++ replicate (size - b.size) 0) b.total
          (bits_of_size b.size - b.total)
      else take size b.bytes

  unfoldable pub resize : (ℕ → Bool) → Bitmap → ℕ → Bitmap
  resize mem b len =
      if not (mem 0)
      then b
      else let b' : Bitmap = record b {
        bytes = resized_bytes b (size_for len);
        total = len;
        size = size_for len;
      } in
        if ltb b.size (size_for len) then b' else (calc_marked b').0

  -- `~` of a char, on every byte; then the bits beyond the end are cleared.
  unfoldable pub invert : Bitmap → Bitmap
  invert b = record b {
    bytes =
        clear_loop (map (λ x. u8_mod - 1 - x % u8_mod) b.bytes) b.total
          (bits_of_size b.size - b.total);
    marked = (b.total + u64_mod - b.marked) % u64_mod;
  }
