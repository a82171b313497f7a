-- ===== src/Bitmap/Pack.antt =====
-- reiser4_bitmap_pack and _unpack: a bitmap as the lengths of its runs, marked first. Where
-- the fuel of a loop runs out, that of pack returns `none`, and that of unpack `out_of_fuel`.
pub mod Restore
pub mod Replay
pub mod Roundtrip
use reiser4progs.Prelude.{
  ℕ, zero, suc, ◌+◌, ◌-◌, ◌%◌, Bool, true, false, not, Option, none, some, List, [], ◌∷◌, ltb, leb,
  ◌==◌, if◌then◌else◌, length, u64_mod, ◌&&◌,
}
use reiser4progs.Aal.{Aal}
use reiser4progs.Aal.Stream.{Stream}
use reiser4progs.Bitmap.{Bitmap, find_cleared, find_marked, mark_region, create}

-- AUX_BITMAP_MAGIC, "R4BtMp" with its final zero.
abbrev pub bitmap_magic : List ℕ
bitmap_magic = b'R' ∷ b'4' ∷ b'B' ∷ b't' ∷ b'M' ∷ b'p' ∷ 0 ∷ []

-- aal_memcmp, for equality.
unfoldable pub same_bytes : List ℕ → List ℕ → Bool
same_bytes [] [] = true
same_bytes [] (y ∷ ys) = false
same_bytes (x ∷ xs) [] = false
same_bytes (x ∷ xs) (y ∷ ys) = x == y && same_bytes xs ys

-- How the loop of unpack ends: at the end of the stream, with the bitmap and the `bit` behind the last
-- run; at a run beyond the end of the bitmap; or not within the fuel.
pub data Unpacked : Type 0 where
  finished : Bitmap → ℕ → Unpacked
  corrupted out_of_fuel : Unpacked

module _ ⦃aal : Aal⦄ ⦃io : Stream⦄ where
  open aal use {inval_blk}
  open io use {read, write, word_bytes, bytes_word}

  -- Where the run that starts at `count` ends.
  unfoldable pub run_end : Bitmap → Bool → ℕ → ℕ
  run_end b set count = if set then find_cleared b count else find_marked b count

  -- The loop, to the `count` it leaves and the stream.
  unfoldable pub pack_loop : ℕ → Bitmap → Bool → ℕ → List ℕ → Option (ℕ × List ℕ)
  pack_loop zero b set count s = none
  pack_loop (suc fuel) b set count s =
      let i = run_end b set count in
      let n = (i + u64_mod - count) % u64_mod in
      let rest = pack_loop fuel b (not set) ((count + n) % u64_mod) (write s (word_bytes n)) in
      if i == inval_blk then some (count, s) else rest

  unfoldable pub pack : Bitmap → List ℕ → Option (List ℕ)
  pack b stream =
      elim (pack_loop (b.total + 2) b true 0
        (write (write stream bitmap_magic) (word_bytes b.total))) [
          | none ↦ none
          | some (count, s) ↦ some (write s (word_bytes ((b.total + u64_mod - count) % u64_mod)))
        ]

  -- The loop, and what is left of the stream.
  unfoldable pub unpack_loop : ℕ → Bitmap → ℕ → ℕ → Bool → List ℕ → Unpacked × List ℕ
  unpack_loop zero b total bit set s = (out_of_fuel, s)
  unpack_loop (suc fuel) b total bit set s =
      let (got, s') = read s 8 in
      let count = bytes_word got in
      let b' = if set then mark_region b bit count else b in
      let rest = unpack_loop fuel b' total ((bit + count) % u64_mod) (not set) s' in
      if not (length got == 8)
      then (finished b bit, s')
      else if ltb total ((bit + count) % u64_mod)
      then (corrupted, s')
      else rest

  unfoldable pub unpack_runs : Bitmap → ℕ → List ℕ → Option Bitmap × List ℕ
  unpack_runs b total s =
      let (done, s') = unpack_loop (length s + 1) b total 0 true s in
      elim done [
        | out_of_fuel ↦ (none, s')
        | corrupted ↦ (none, s')
        | finished b' bit ↦ (if not (bit == total) then none else some b', s')
      ]

  unfoldable pub unpack : (ℕ → Bool) → List ℕ → Option Bitmap × List ℕ
  unpack mem stream =
      let (magic, s) = read stream 7 in
      let (word, s') = read s 8 in
      let total = bytes_word word in
      if not (length magic == 7)
      then (none, s)
      else if not (same_bytes magic bitmap_magic)
      then (none, s)
      else if not (length word == 8)
      then (none, s')
      else elim (create mem total) [ none ↦ (none, s') | some b ↦ unpack_runs b total s' ]
