-- ===== src/Bitmap/Pack/Roundtrip.antt =====
-- reiser4_bitmap_pack and _unpack together, and the fuel of the latter.
use mathlib.Core.List.{append_assoc}
use reiser4progs.Prelude.{
  ℕ, zero, suc, ◌+◌, ◌-◌, ◌*◌, ◌%◌, ◌≤◌, ◌<◌, ◌≡◌, ◌≢◌, ◌∙◌, sym, ap, Bool, true, false, not, some,
  List, [], ◌++◌, if◌then◌else◌, length, length-take, length-drop, take, drop, u64_mod, u32_mod,
  arith, count_in, count_in_ext,
}
use reiser4progs.Aal.{Aal}
use reiser4progs.Aal.Stream.{Stream}
use reiser4progs.Bitmap.{Bitmap, mark_region, create}
use reiser4progs.Bitmap.Contents.{contents, IsValid}
use reiser4progs.Bitmap.Whole.{create-IsValid}
use reiser4progs.Bitmap.Pack.{
  bitmap_magic, same_bytes, pack_loop, pack, unpack_loop, unpack_runs, unpack, finished,
  out_of_fuel,
}
use reiser4progs.Bitmap.Pack.Restore.{Restored, take-drop_front}
use reiser4progs.Bitmap.Pack.Replay.{Packed, lag, pack_loop-Packed}

module _ ⦃aal : Aal⦄ ⦃io : Stream⦄ where
  open aal use {inval_blk, inval_blk_lem}
  open io use {
    read, write, word_bytes, bytes_word, read_lem, write_lem, length-word_bytes,
    bytes_word-word_bytes,
  }

  lag-le : (s v : Bool) → lag s v ≤ 1
  lag-le true true = omega arith
  lag-le true false = omega arith
  lag-le false true = omega arith
  lag-le false false = omega arith

  packed : (b : Bitmap) → IsValid b → Packed b true 0 (b.total + 2)
  packed b v =
      pack_loop-Packed (b.total + 2) b true 0 v (omega arith)
        (omega (arith, lag-le true (contents b 0)))

  unpack_runs_lem :
      (b c c' : Bitmap) (s : List ℕ)
      → unpack_loop (length s + 1) c b.total 0 true s ≡ (finished c' b.total, [])
      → unpack_runs c b.total s ≡ (some c', [])
  unfolding unpack_runs
  unpack_runs_lem b c c' s e = rw (e, unpack_runs) (ground arith)

  -- A stream that begins with the magic and a length goes on to the runs of an empty bitmap.
  unpack_header :
      (mem : ℕ → Bool) (total : ℕ) (c : Bitmap) (s : List ℕ)
      → total < u64_mod
      → create mem total ≡ some c
      → unpack mem (bitmap_magic ++ word_bytes total ++ s) ≡ unpack_runs c total s
  unfolding unpack same_bytes
  unpack_header mem total c s small e = simp (
    read_lem,
    (take-drop_front 8 (word_bytes total) s (length-word_bytes total)).0,
    (take-drop_front 8 (word_bytes total) s (length-word_bytes total)).1,
    length-word_bytes total,
    bytes_word-word_bytes total small,
    e,
  )

  pack_lem :
      (b : Bitmap) (last : ℕ) (s : List ℕ)
      → pack_loop (b.total + 2) b true 0 (bitmap_magic ++ word_bytes b.total) ≡ some (last, s)
      → last ≤ b.total
      → b.total < u64_mod
      → pack b [] ≡ some (s ++ word_bytes (b.total - last))
  unfolding pack
  pack_lem b last s e le small = rw (
    write_lem [] bitmap_magic,
    write_lem bitmap_magic (word_bytes b.total),
    pack,
    e,
    write_lem,
    distance,
  )
    where
      distance : (b.total + u64_mod - last) % u64_mod ≡ b.total - last
      distance = omega arith

  contents-Restored : (b c : Bitmap) → Restored b c b.total → (j : ℕ) → contents c j ≡ contents b j
  unfolding contents
  contents-Restored b c r j = ground (arith, r.held j)

  -- For a valid bitmap of fewer than 8 * 2 ^ 32 - 7 blocks, and where the two allocations of
  -- the new bitmap succeed, packing into an empty stream gives a stream (the loop does not run
  -- out of fuel), and unpacking that stream reads it to its last byte and gives a valid bitmap
  -- of the same length, with the same blocks marked and the same counter.
  pub pack-unpack :
      (mem : ℕ → Bool) (b : Bitmap)
      → mem 0 ≡ true
      → mem 1 ≡ true
      → IsValid b
      → b.total + 7 < 8 * u32_mod
      → (stream : List ℕ) × (c : Bitmap) × (pack b [] ≡ some stream)
        × (unpack mem stream ≡ (some c, []))
        × IsValid c
        × (c.total ≡ b.total)
        × (c.marked ≡ b.marked)
        × ((j : ℕ) → contents c j ≡ contents b j)
  pack-unpack mem b m0 m1 v short =
      let p = packed b v in
      let runs = p.words ++ word_bytes (b.total - p.last) in
      let (fresh, made, fresh_valid, fresh_total, empty) = create-IsValid mem b.total m0 m1 short in
      let (c, r, replayed) =
        p.replay fresh (length runs + 1)
          (record {
            valid = fresh_valid;
            same_total = fresh_total;
            held = λ j. ground (arith, empty j);
          })
          (omega arith) in
      (
        bitmap_magic ++ word_bytes b.total ++ runs,
        c,
        pack_lem b p.last _ (p.runs (bitmap_magic ++ word_bytes b.total)) p.bounded v.small
            ∙ simp append_assoc,
        unpack_header mem b.total fresh runs v.small made ∙ unpack_runs_lem b fresh c runs replayed,
        r.valid,
        r.same_total,
        same_count r,
        contents-Restored b c r,
      )
    where
      same_count : {c : Bitmap} → Restored b c b.total → c.marked ≡ b.marked
      same_count {c} r =
          r.valid.counted
          ∙ ap (count_in (contents c) 0) r.same_total
          ∙ (count_in_ext (contents c) (contents b) 0 b.total (λ j _ _. contents-Restored b c r j))
          ∙ sym v.counted

  -- With any fuel above the number of bytes left in the stream, whatever it holds, the loop of
  -- reiser4_bitmap_unpack ends within the fuel, at the end of the stream or at a run beyond the
  -- end of the bitmap, and the result does not depend on the fuel.
  pub unpack_loop_enough :
      (f g : ℕ) (b : Bitmap) (total bit : ℕ) (set : Bool) (s : List ℕ)
      → length s < f
      → length s < g
      → ((unpack_loop f b total bit set s).0 ≢ out_of_fuel)
        × (unpack_loop f b total bit set s ≡ unpack_loop g b total bit set s)
  unfolding unpack_loop
  unpack_loop_enough zero g b total bit set s hf hg = absurd (omega arith)
  unpack_loop_enough (suc f) zero b total bit set s hf hg = absurd (omega arith)
  unpack_loop_enough (suc f) (suc g) b total bit set s hf hg = rw (read_lem s 8) (
      ground (
        arith,
        length-take 8 s,
        length-drop 8 s,
        unpack_loop_enough f g (if set then mark_region b bit (bytes_word (take 8 s)) else b) total
            ((bit + bytes_word (take 8 s)) % u64_mod) (not set) (drop 8 s),
      ))
