-- ===== src/Bitmap/Pack/Replay.antt =====
-- The loops of reiser4_bitmap_pack and _unpack, run by run.
use mathlib.Core.List.{append-nil, append_assoc}
use reiser4progs.Prelude.{
  ℕ, zero, suc, ◌+◌, ◌-◌, ◌%◌, ◌≤◌, ◌<◌, ◌≡◌, ℕ_discrete, refl, ◌∙◌, sym, ap, Bool, true, false,
  not, some, List, [], ◌++◌, if◌then◌else◌, length, length-append, u64_mod, arith,
}
use reiser4progs.Aal.{Aal}
use reiser4progs.Aal.Stream.{Stream}
use reiser4progs.Bitmap.{Bitmap, mark_region}
use reiser4progs.Bitmap.Contents.{contents, IsValid}
use reiser4progs.Bitmap.Find.{Found, absent, present, find_cleared-Found, find_marked-Found}
use reiser4progs.Bitmap.Pack.Restore.{Restored, restore_step, replay_word, replay_last}
use reiser4progs.Bitmap.Pack.{run_end, pack_loop, unpack_loop, finished}

-- A run that does not begin with its own value has no length, and costs a round.
abbrev pub lag : Bool → Bool → ℕ
lag true true = 0
lag true false = 1
lag false true = 1
lag false false = 0

lag-not : (set v : Bool) → v ≡ not set → (lag set v ≡ 1) × (lag (not set) v ≡ 0)
lag-not true v e = rw e (refl, refl)
lag-not false v e = rw e (refl, refl)

not-not : (v : Bool) → not (not v) ≡ v
not-not true = refl
not-not false = refl

module _ ⦃aal : Aal⦄ ⦃io : Stream⦄ where
  open aal use {inval_blk, inval_blk_lem}
  open io use {
    read, write, word_bytes, bytes_word, read_lem, write_lem, length-word_bytes,
    bytes_word-word_bytes,
  }

  run_end-Found :
      (b : Bitmap) (set : Bool) (count : ℕ)
      → IsValid b
      → Found (not set) b count (run_end b set count)
  unfolding run_end
  run_end-Found b true count v = find_cleared-Found b count v.room
  run_end-Found b false count v = find_marked-Found b count v.room

  -- What the loop of pack appends, and that the loop of unpack reads it back.
  pub record Packed (b : Bitmap) (set : Bool) (count fuel : ℕ) : Type 0 where
    pub words : List ℕ
    pub last : ℕ
    pub runs : (s : List ℕ) → pack_loop fuel b set count s ≡ some (last, s ++ words)
    pub bounded : last ≤ b.total
    pub replay :
        (c : Bitmap) (g : ℕ)
        → Restored b c count
        → length (words ++ word_bytes (b.total - last)) < g
        → (c' : Bitmap) × Restored b c' b.total
          × (unpack_loop g c b.total count set (words ++ word_bytes (b.total - last))
              ≡ (finished c' b.total, []))

  pack_stop :
      (f : ℕ) (b : Bitmap) (set : Bool) (count : ℕ) (s : List ℕ)
      → run_end b set count ≡ u64_mod - 1
      → pack_loop (suc f) b set count s ≡ some (count, s)
  unfolding pack_loop
  pack_stop f b set count s e = ground (arith, e, inval_blk_lem)

  pack_run :
      (f : ℕ) (b : Bitmap) (set : Bool) (count i : ℕ) (s : List ℕ)
      → run_end b set count ≡ i
      → count ≤ i
      → i < b.total
      → b.total < u64_mod
      → pack_loop (suc f) b set count s ≡ pack_loop f b (not set) i (s ++ word_bytes (i - count))
  unfolding pack_loop
  pack_run f b set count i s e le lt small =
      rw (e, distance, total, write_lem s (word_bytes (i - count))) (ground (arith, inval_blk_lem))
    where
      distance : (i + u64_mod - count) % u64_mod ≡ i - count
      distance = omega arith

      total : (count + (i - count)) % u64_mod ≡ i
      total = omega arith

  replay_run :
      (b c : Bitmap) (set : Bool) (count i f g : ℕ)
      → IsValid b
      → count ≤ i
      → i < b.total
      → ((j : ℕ) → count ≤ j → j < i → contents b j ≡ set)
      → (p : Packed b (not set) i f) → Restored b c count
      → length ((word_bytes (i - count) ++ p.words) ++ word_bytes (b.total - p.last)) < g
      → (c' : Bitmap) × Restored b c' b.total
        × (unpack_loop g c b.total count set
              ((word_bytes (i - count) ++ p.words) ++ word_bytes (b.total - p.last))
            ≡ (finished c' b.total, []))
  replay_run b c set count i f zero v le lt run p r more = absurd (omega arith)
  replay_run b c set count i f (suc g) v le lt run p r more =
      let tail = p.words ++ word_bytes (b.total - p.last) in
      let regroup = append_assoc (word_bytes (i - count)) p.words (word_bytes (b.total - p.last)) in
      let (c', restored, e) =
        p.replay (if set then mark_region c count (i - count) else c) g
          (restore_step b c set count i r le (omega arith) run)
          (omega (
            arith,
            ap length regroup,
            length-append (word_bytes (i - count)) tail,
            length-word_bytes (i - count),
          )) in
      (
        c',
        restored,
        ap (unpack_loop (suc g) c b.total count set) regroup
            ∙ replay_word b c set count i g tail le (omega arith) v.small
            ∙ e,
      )

  -- The last run ends the bitmap.
  Packed-last :
      (b : Bitmap) (set : Bool) (count f : ℕ)
      → IsValid b
      → count ≤ b.total
      → run_end b set count ≡ u64_mod - 1
      → ((j : ℕ) → count ≤ j → j < b.total → contents b j ≡ set)
      → Packed b set count (suc f)
  Packed-last b set count f v le e run = record {
    words = [];
    last = count;
    runs = λ s. pack_stop f b set count s e ∙ rw (append-nil s);
    bounded = le;
    replay = λ c g r more.
        replay_last b c set count g v le run r (omega (arith, length-word_bytes (b.total - count)));
  }

  -- A run up to the block `i`, and the rest.
  Packed-run :
      (b : Bitmap) (set : Bool) (count i f : ℕ)
      → IsValid b
      → run_end b set count ≡ i
      → count ≤ i
      → i < b.total
      → ((j : ℕ) → count ≤ j → j < i → contents b j ≡ set)
      → Packed b (not set) i f
      → Packed b set count (suc f)
  Packed-run b set count i f v e le lt run p = record {
    words = word_bytes (i - count) ++ p.words;
    last = p.last;
    runs = λ s.
        pack_run f b set count i s e le lt v.small
        ∙ p.runs (s ++ word_bytes (i - count))
        ∙ rw (append_assoc s (word_bytes (i - count)) p.words);
    bounded = p.bounded;
    replay = λ c g r more. replay_run b c set count i f g v le lt run p r more;
  }

  -- A run that begins at once costs its blocks, one that does not costs its lag.
  Packed-case :
      (f : ℕ) (b : Bitmap) (set : Bool) (count : ℕ)
      → IsValid b
      → count ≤ b.total
      → b.total - count + lag set (contents b count) < suc f
      → ((i : ℕ) → i < b.total → b.total - i < f → contents b i ≡ not set → Packed b (not set) i f)
      → (i : ℕ) → run_end b set count ≡ i
      → Found (not set) b count i
      → Packed b set count (suc f)
  Packed-case f b set count v le h next i e (absent end run) =
      Packed-last b set count f v le (e ∙ end) (λ j a c. run j a c ∙ not-not set)
  Packed-case f b set count v le h next i e (present from lt here run) =
      Packed-run b set count i f v e from lt (λ j a c. run j a c ∙ not-not set)
        (next i lt shorter here)
    where
      shorter : b.total - i < f
      shorter = elim (ℕ_discrete i count) [
        | yes same ↦
            omega (arith, (lag-not set (contents b count) (ap (contents b) (sym same) ∙ here)).0)
        | no more ↦ omega arith
      ]

  pub pack_loop-Packed :
      (f : ℕ) (b : Bitmap) (set : Bool) (count : ℕ)
      → IsValid b
      → count ≤ b.total
      → b.total - count + lag set (contents b count) < f
      → Packed b set count f
  pack_loop-Packed zero b set count v le h = absurd (omega arith)
  pack_loop-Packed (suc f) b set count v le h =
      Packed-case f b set count v le h
        (λ i lt fuel here.
          pack_loop-Packed f b (not set) i v (omega arith)
            (omega (arith, (lag-not set (contents b i) here).1)))
        (run_end b set count) refl (run_end-Found b set count v)
