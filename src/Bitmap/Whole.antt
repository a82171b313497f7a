-- ===== src/Bitmap/Whole.antt =====
-- reiser4_bitmap_create, _clone and _invert, which make or change a whole bitmap.
use reiser4progs.Prelude.{
  ℕ, ◌+◌, ◌-◌, ◌*◌, ◌%◌, ◌<◌, ◌≡◌, refl, ◌∙◌, sym, ap, Bool, true, false, not, inl, inr, leb,
  length, length-map, length-take, length-replicate, map, take, replicate, List, u32_mod, u8_mod,
  arith, Bool-cases, some, count_in_none, count_in_ext, count_in-not,
}
use reiser4progs.Aal.{Aal, bit_at, in_region}
use reiser4progs.Bitmap.{Bitmap, size_for, bits_of_size, create, clone, invert}
use reiser4progs.Bitmap.Contents.{contents, IsValid, marked-le}
use reiser4progs.Bitmap.Bytes.{
  bit_at-zeros, bit_at-complement, bit_at-take, clear_loop_lem, length-clear_loop,
}
use reiser4progs.Bitmap.Overwrite.{contents-inside}

contents-zeros : (b : Bitmap) (n j : ℕ) → b.bytes ≡ replicate n 0 → contents b j ≡ false
unfolding contents
contents-zeros b n j e = elim (Bool-cases (leb b.total j)) [
  | inl beyond ↦ rw beyond
  | inr inside ↦ rw (inside, e) (bit_at-zeros n j)
]

-- Bitmaps of one length with the same bits hold the same blocks.
pub contents-same_bits :
    (b c : Bitmap) (j : ℕ)
    → c.total ≡ b.total
    → (j < b.total → bit_at c.bytes j ≡ bit_at b.bytes j)
    → contents c j ≡ contents b j
unfolding contents
contents-same_bits b c j e same = elim (Bool-cases (leb b.total j)) [
  | inl beyond ↦ rw (e, beyond)
  | inr inside ↦ rw (e, inside) (same (ground arith))
]

module _ ⦃aal : Aal⦄ where
  -- Where both allocations succeed and the length is below 8 * 2 ^ 32 - 7, a new bitmap is
  -- valid, has that length and no block marked.
  pub create-IsValid :
      (mem : ℕ → Bool) (len : ℕ)
      → mem 0 ≡ true
      → mem 1 ≡ true
      → len + 7 < 8 * u32_mod
      → (b : Bitmap) × (create mem len ≡ some b)
        × IsValid b
        × (b.total ≡ len)
        × ((j : ℕ) → contents b j ≡ false)
  unfolding create
  create-IsValid mem len m0 m1 small = (
    b,
    rw (m0, m1),
    record {
      small = omega arith;
      sized = sym (length-replicate {A = ℕ} (size_for len) 0);
      exact = refl;
      room = omega (arith, length-replicate {A = ℕ} (size_for len) 0);
      counted = sym (count_in_none (contents b) 0 len (λ j _ _. empty j));
    },
    refl,
    empty,
  )
    where
      b : Bitmap
      b = record {
        marked = 0;
        total = len;
        size = size_for len;
        bytes = replicate (size_for len) 0;
      }

      empty : (j : ℕ) → contents b j ≡ false
      empty j = contents-zeros b (size_for len) j refl

  -- Where both allocations succeed, a clone of a valid bitmap is valid and has the blocks, the
  -- counter and the length of its original.
  pub clone-contents :
      (mem : ℕ → Bool) (b : Bitmap)
      → mem 0 ≡ true
      → mem 1 ≡ true
      → IsValid b
      → (c : Bitmap) × (clone mem b ≡ some c)
        × IsValid c
        × (c.total ≡ b.total)
        × (c.marked ≡ b.marked)
        × ((j : ℕ) → contents c j ≡ contents b j)
  unfolding clone create
  clone-contents mem b m0 m1 v = (
    c,
    ground arith,
    record {
      small = v.small;
      sized = omega (arith, held);
      exact = refl;
      room = omega (arith, held, v.room);
      counted =
          v.counted ∙ count_in_ext (contents b) (contents c) 0 b.total (λ j _ _. sym (equal j));
    },
    refl,
    refl,
    equal,
  )
    where
      c : Bitmap
      c = record b { size = size_for b.total; bytes = take (size_for b.total) b.bytes }

      held : (length c.bytes ≡ size_for b.total) × (size_for b.total ≡ length b.bytes)
      held = omega (arith, v.exact, v.sized, length-take (size_for b.total) b.bytes)

      equal : (j : ℕ) → contents c j ≡ contents b j
      equal j =
          contents-same_bits b c j refl
            (λ h. bit_at-take (size_for b.total) b.bytes j (omega (arith, held, v.room)))

  invert-bits :
      (b : Bitmap) (j : ℕ)
      → IsValid b
      → j < b.total
      → bit_at (invert b).bytes j ≡ not (bit_at b.bytes j)
  unfolding invert in_region
  invert-bits b j v h = ground (
    arith,
    clear_loop_lem (map (λ x. u8_mod - 1 - x % u8_mod) b.bytes) b.total
        (bits_of_size b.size - b.total) j
        (omega (arith, v.sized, v.room, length-map b.bytes (λ x. u8_mod - 1 - x % u8_mod))),
    bit_at-complement b.bytes j (omega (arith, v.room)),
  )

  invert-contents :
      (b : Bitmap) (j : ℕ) → IsValid b → j < b.total → contents (invert b) j ≡ not (contents b j)
  unfolding invert
  invert-contents b j v h =
      contents-inside (invert b) j h ∙ invert-bits b j v h ∙ ap not (sym (contents-inside b j h))

  -- Inverting a valid bitmap gives a valid bitmap of the same length in which exactly the
  -- cleared blocks are marked, and the two counters add up to the length.
  pub invert-IsValid :
      (b : Bitmap)
      → IsValid b
      → IsValid (invert b)
        × ((invert b).total ≡ b.total)
        × ((invert b).marked + b.marked ≡ b.total)
        × ((j : ℕ) → j < b.total → contents (invert b) j ≡ not (contents b j))
  unfolding invert
  invert-IsValid b v = (
    record {
      small = v.small;
      sized = omega (arith, v.sized, bytes_kept);
      exact = v.exact;
      room = omega (arith, v.room, bytes_kept);
      counted = omega (
        arith,
        v.small,
        v.counted,
        count_in-not (contents b) 0 b.total,
        count_in_ext (contents (invert b)) (λ j. not (contents b j)) 0 b.total
            (λ j _ h. invert-contents b j v (omega arith)),
        marked-le v,
      );
    },
    refl,
    omega (arith, marked-le v, v.small),
    λ j h. invert-contents b j v h,
  )
    where
      flipped : List ℕ
      flipped = map (λ x. u8_mod - 1 - x % u8_mod) b.bytes

      flipped_length : length flipped ≡ length b.bytes
      flipped_length = length-map b.bytes (λ x. u8_mod - 1 - x % u8_mod)

      bytes_kept : length (invert b).bytes ≡ length b.bytes
      bytes_kept =
          length-clear_loop flipped b.total (bits_of_size b.size - b.total)
            (omega (arith, v.sized, v.room, flipped_length))
          ∙ flipped_length
