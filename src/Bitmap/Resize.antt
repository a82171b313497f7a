-- ===== src/Bitmap/Resize.antt =====
-- reiser4_bitmap_resize, and the counts over the whole bitmap.
use reiser4progs.Prelude.{
  ℕ, ◌+◌, ◌-◌, ◌*◌, ◌≤◌, ◌<◌, ◌≡◌, refl, ◌∙◌, sym, ap, Bool, true, false, inl, inr, ltb, leb,
  ltb→lt, if◌then◌else◌, length, length-take, length-append, length-replicate, take, replicate,
  List, ◌++◌, u64_mod, u32_mod, arith, Bool-cases, count_in, count_in_none, count_in_ext,
  count_in-not, count_in-add,
}
use reiser4progs.Aal.{Aal, bit_at, in_region}
use reiser4progs.Bitmap.{
  Bitmap, size_for, bits_of_size, resized_bytes, resize, calc, calc_marked, calc_cleared,
}
use reiser4progs.Bitmap.Contents.{contents, IsValid, calc_lem}
use reiser4progs.Bitmap.Bytes.{
  bit_at-take, bit_at-append_left, bit_at-append_zeros, clear_loop_lem, length-clear_loop,
}
use reiser4progs.Bitmap.Overwrite.{contents-inside}

-- Below this length `size * 8` does not wrap as a uint32_t.
abbrev pub IsShort : ℕ → Type 0
IsShort len = len + 7 < u32_mod

-- The bytes before the loop that clears the old tail.
abbrev grown : Bitmap → ℕ → List ℕ
grown b size = take b.size b.bytes ++ replicate (size - b.size) 0

length-grown :
    (b : Bitmap) (size : ℕ) → b.size ≡ length b.bytes → b.size ≤ size → length (grown b size) ≡ size
length-grown b size e h = omega (
  arith,
  length-append (take b.size b.bytes) (replicate (size - b.size) 0),
  length-take b.size b.bytes,
  length-replicate {A = ℕ} (size - b.size) 0,
)

grown-bit :
    (b : Bitmap) (size j : ℕ)
    → b.size ≡ length b.bytes
    → bit_at (grown b size) j ≡ (if ltb j (8 * b.size) then bit_at b.bytes j else false)
grown-bit b size j e = elim (Bool-cases (ltb j (8 * b.size))) [
  | inl old ↦ rw old (
      bit_at-append_left (take b.size b.bytes) (replicate (size - b.size) 0) j
        (ground (arith, length-take b.size b.bytes))
      ∙ bit_at-take b.size b.bytes j (ground arith))
  | inr new ↦ rw new (
      bit_at-append_zeros (take b.size b.bytes) (size - b.size) j
        (ground (arith, length-take b.size b.bytes)))
]

module _ ⦃aal : Aal⦄ where
  length-resized_bytes :
      (b : Bitmap) (size : ℕ) → IsValid b → IsShort b.total → length (resized_bytes b size) ≡ size
  unfolding resized_bytes
  length-resized_bytes b size v short = elim (Bool-cases (ltb b.size size)) [
    | inl more ↦ rw more (
        length-clear_loop (grown b size) b.total (bits_of_size b.size - b.total)
          (omega (arith, v.exact, ltb→lt b.size size more, length-grown b size v.sized))
        ∙ length-grown b size v.sized (omega (arith, ltb→lt b.size size more)))
    | inr less ↦ rw less (ground (arith, v.sized, length-take size b.bytes))
  ]

  -- A larger map has the old blocks and cleared bits from `total` on; another has the old bits.
  resized-bit :
      (b : Bitmap) (size j : ℕ)
      → IsValid b
      → IsShort b.total
      → j < 8 * size
      → bit_at (resized_bytes b size) j
        ≡ (if ltb b.size size then contents b j else bit_at b.bytes j)
  unfolding resized_bytes contents in_region
  resized-bit b size j v short h = elim (Bool-cases (ltb b.size size)) [
    | inl more ↦ rw more (
        clear_loop_lem (grown b size) b.total (bits_of_size b.size - b.total) j
          (omega (arith, v.exact, ltb→lt b.size size more, length-grown b size v.sized))
        ∙ ground (arith, grown-bit b size j v.sized, v.exact))
    | inr less ↦ rw less (bit_at-take size b.bytes j h)
  ]

  -- Where the map has room for the bitmap and its length fits into 64 bits, calc_marked returns
  -- and stores the number of marked blocks, whatever the counter said, and the cleared blocks
  -- are the rest.
  pub calc_marked_lem :
      (b : Bitmap)
      → b.total ≤ 8 * length b.bytes
      → b.total < u64_mod
      → ((calc_marked b).1 ≡ count_in (contents b) 0 b.total)
        × ((calc_marked b).0.marked ≡ (calc_marked b).1)
        × (calc_cleared b + (calc_marked b).1 ≡ b.total)
  unfolding calc_marked calc_cleared
  calc_marked_lem b room small = (
    counted,
    refl,
    omega (
      arith,
      counted,
      calc_lem b 0 b.total false room (omega arith),
      count_in-not (contents b) 0 b.total,
    ),
  )
    where
      counted : calc b 0 b.total true ≡ count_in (contents b) 0 b.total
      counted = calc_lem b 0 b.total true room (omega arith)

  -- Blocks beyond the old end count nothing.
  count_in_longer :
      (b : Bitmap) (len : ℕ)
      → b.total ≤ len
      → count_in (contents b) 0 len ≡ count_in (contents b) 0 b.total
  unfolding contents
  count_in_longer b len h = omega (
    arith,
    ap (count_in (contents b) 0) {x = len} {y = b.total + (len - b.total)} (omega arith),
    count_in-add (contents b) 0 b.total (len - b.total),
    count_in_none (contents b) (0 + b.total) (len - b.total) (λ j from _. ground arith),
  )

  resized : Bitmap → ℕ → Bitmap
  resized b len = record b {
    bytes = resized_bytes b (size_for len);
    total = len;
    size = size_for len;
  }

  resized-contents :
      (b : Bitmap) (len j : ℕ)
      → IsValid b
      → IsShort b.total
      → IsShort len
      → j < len
      → contents (resized b len) j
        ≡ (if ltb b.size (size_for len) then contents b j else bit_at b.bytes j)
  unfolding resized
  resized-contents b len j v short short' h =
      contents-inside (resized b len) j h ∙ resized-bit b (size_for len) j v short (omega arith)

  -- Where the allocation succeeds and both lengths are below 2 ^ 32 - 7, a resized valid bitmap
  -- is valid again, with the new length: whether the map grows or shrinks, the counter agrees.
  pub resize-IsValid :
      (mem : ℕ → Bool) (b : Bitmap) (len : ℕ)
      → mem 0 ≡ true
      → IsValid b
      → IsShort b.total
      → IsShort len
      → IsValid (resize mem b len) × ((resize mem b len).total ≡ len)
  unfolding resize resized calc_marked contents
  resize-IsValid mem b len m0 v short short' = elim (Bool-cases (ltb b.size (size_for len))) [
    | inl more ↦ rw (m0, more) (made b.marked (v.counted ∙ sym (agree more)), refl)
    | inr less ↦
        rw (m0, less)
          (made _ (calc_lem (resized b len) 0 len true (omega (arith, kept)) (omega arith)), refl)
  ]
    where
      kept : length (resized b len).bytes ≡ size_for len
      kept = length-resized_bytes b (size_for len) v short

      agree :
          ltb b.size (size_for len) ≡ true
          → count_in (contents (resized b len)) 0 len ≡ count_in (contents b) 0 b.total
      agree more =
          count_in_ext (contents (resized b len)) (contents b) 0 len
            (λ j _ h. resized-contents b len j v short short' (omega arith) ∙ rw more)
          ∙ count_in_longer b len (omega (arith, v.exact, ltb→lt b.size (size_for len) more))

      made :
          (n : ℕ)
          → n ≡ count_in (contents (resized b len)) 0 len
          → IsValid (record (resized b len) { marked = n })
      made n e = record {
        small = omega arith;
        sized = sym kept;
        exact = refl;
        room = omega (arith, kept);
        counted = e;
      }

  contents-resize_step :
      (mem : ℕ → Bool) (b : Bitmap) (len : ℕ)
      → mem 0 ≡ true
      → (j : ℕ) → contents (resize mem b len) j ≡ contents (resized b len) j
  unfolding resize resized calc_marked contents
  contents-resize_step mem b len m0 j = ground (arith, m0)

  beyond-resized : (b : Bitmap) (len j : ℕ) → leb len j ≡ true → contents (resized b len) j ≡ false
  unfolding resized contents
  beyond-resized b len j e = rw e

  -- Where the map does not grow, the bits in front of the new end are the old blocks.
  tail_clean :
      (b : Bitmap) (len j : ℕ)
      → j < len
      → ((j : ℕ) → b.total ≤ j → j < len → bit_at b.bytes j ≡ false)
      → bit_at b.bytes j ≡ contents b j
  unfolding contents
  tail_clean b len j h clean = ground (arith, clean j)

  -- Where the allocation succeeds and both lengths are below 2 ^ 32 - 7, resizing a valid
  -- bitmap keeps the blocks below both lengths and marks none beyond the old one, provided that
  -- the bits between the lengths are clear where the number of bytes does not grow.
  pub contents-resize :
      (mem : ℕ → Bool) (b : Bitmap) (len : ℕ)
      → mem 0 ≡ true
      → IsValid b
      → IsShort b.total
      → IsShort len
      → (size_for len ≤ b.size → (j : ℕ) → b.total ≤ j → j < len → bit_at b.bytes j ≡ false)
      → (j : ℕ) → contents (resize mem b len) j ≡ (if leb len j then false else contents b j)
  contents-resize mem b len m0 v short short' clean j =
      contents-resize_step mem b len m0 j ∙ elim (Bool-cases (leb len j)) [
        | inl beyond ↦ rw beyond (beyond-resized b len j beyond)
        | inr inside ↦
            rw inside (resized-contents b len j v short short' (ground arith) ∙ old (ground arith))
      ]
    where
      old :
          j < len
          → (if ltb b.size (size_for len) then contents b j else bit_at b.bytes j) ≡ contents b j
      old h = elim (Bool-cases (ltb b.size (size_for len))) [
        | inl more ↦ rw more
        | inr less ↦ rw less (tail_clean b len j h (clean (ground arith)))
      ]
