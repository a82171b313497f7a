-- ===== src/Bitmap/Pack/Restore.antt =====
-- The loop of reiser4_bitmap_unpack: what one word of the stream restores.
use mathlib.Core.List.{append-nil}
use reiser4progs.Prelude.{
  ℕ, zero, suc, ◌+◌, ◌-◌, ◌%◌, ◌≤◌, ◌<◌, ◌≡◌, refl, ◌∙◌, sym, ap, Bool, true, false, not, List, [],
  ◌∷◌, ◌++◌, ltb, if◌then◌else◌, length, take, drop, u64_mod, arith,
}
use reiser4progs.Aal.{Aal, in_region}
use reiser4progs.Aal.Stream.{Stream}
use reiser4progs.Bitmap.{Bitmap, mark_region}
use reiser4progs.Bitmap.Contents.{contents, IsValid}
use reiser4progs.Bitmap.Overwrite.{Wrote}
use reiser4progs.Bitmap.Region.{mark_region-Wrote}
use reiser4progs.Bitmap.Pack.{unpack_loop, finished}

-- `c` has the blocks of `b` below `n`, and no other.
pub record Restored (b c : Bitmap) (n : ℕ) : Type 0 where
  pub valid : IsValid c
  pub same_total : c.total ≡ b.total
  pub held : (j : ℕ) → contents c j ≡ (if ltb j n then contents b j else false)

pub take-drop_front :
    (n : ℕ) (xs ys : List ℕ) → length xs ≡ n → (take n (xs ++ ys) ≡ xs) × (drop n (xs ++ ys) ≡ ys)
take-drop_front zero [] ys e = (refl, refl)
take-drop_front zero (x ∷ xs) ys e = absurd (omega arith)
take-drop_front (suc n) [] ys e = absurd (omega arith)
take-drop_front (suc n) (x ∷ xs) ys e =
    let (t, d) = take-drop_front n xs ys (omega arith) in (ap (λ zs. x ∷ zs) t, d)

module _ ⦃aal : Aal⦄ where
  pub restore_step :
      (b c : Bitmap) (set : Bool) (count i : ℕ)
      → Restored b c count
      → count ≤ i
      → i ≤ b.total
      → ((j : ℕ) → count ≤ j → j < i → contents b j ≡ set)
      → Restored b (if set then mark_region c count (i - count) else c) i
  unfolding in_region
  restore_step b c false count i r le top run = record {
    valid = r.valid;
    same_total = r.same_total;
    held = λ j. ground (arith, r.held j, run j);
  }
  restore_step b c true count i r le top run = record {
    valid = w.valid;
    same_total = w.same_total ∙ r.same_total;
    held = λ j. ground (arith, w.written j, r.held j, run j);
  }
    where
      w : Wrote true c (mark_region c count (i - count)) count (i - count)
      w = mark_region-Wrote c count (i - count) r.valid (omega (arith, r.same_total))

module _ ⦃aal : Aal⦄ ⦃io : Stream⦄ where
  open aal use {inval_blk, inval_blk_lem}
  open io use {
    read, write, word_bytes, bytes_word, read_lem, write_lem, length-word_bytes,
    bytes_word-word_bytes,
  }

  -- One word of the stream, and the end of the stream.
  unpack_word :
      (g : ℕ) (c : Bitmap) (total bit : ℕ) (set : Bool) (n : ℕ) (rest : List ℕ)
      → n < u64_mod
      → bit + n ≤ total
      → total < u64_mod
      → unpack_loop (suc g) c total bit set (word_bytes n ++ rest)
        ≡ unpack_loop g (if set then mark_region c bit n else c) total (bit + n) (not set) rest
  unfolding unpack_loop
  unpack_word g c total bit set n rest small inside small' =
      rw
        (
          read_lem (word_bytes n ++ rest) 8,
          (take-drop_front 8 (word_bytes n) rest (length-word_bytes n)).0,
          (take-drop_front 8 (word_bytes n) rest (length-word_bytes n)).1,
          length-word_bytes n,
          bytes_word-word_bytes n small,
        )
        (ground (
          arith,
          ap (λ k. unpack_loop g (if set then mark_region c bit n else c) total k (not set) rest)
              {x = (bit + n) % u64_mod} {y = bit + n} (omega arith),
        ))

  unpack_end :
      (g : ℕ) (c : Bitmap) (total bit : ℕ) (set : Bool)
      → unpack_loop (suc g) c total bit set [] ≡ (finished c bit, [])
  unfolding unpack_loop
  unpack_end g c total bit set = rw (read_lem [] 8)

  -- One word is read back: the run is restored, and the rest of the stream follows.
  pub replay_word :
      (b c : Bitmap) (set : Bool) (count i g : ℕ) (rest : List ℕ)
      → count ≤ i
      → i ≤ b.total
      → b.total < u64_mod
      → unpack_loop (suc g) c b.total count set (word_bytes (i - count) ++ rest)
        ≡ unpack_loop g
            (if set then mark_region c count (i - count) else c)
            b.total
            i
            (not set)
            rest
  replay_word b c set count i g rest le top small =
      unpack_word g c b.total count set (i - count) rest (omega arith) (omega arith) small
      ∙ ap
          (λ k.
            unpack_loop g (if set then mark_region c count (i - count) else c) b.total k (not set)
              rest)
          {x = count + (i - count)} {y = i} (omega arith)

  pub replay_last :
      (b c : Bitmap) (set : Bool) (count g : ℕ)
      → IsValid b
      → count ≤ b.total
      → ((j : ℕ) → count ≤ j → j < b.total → contents b j ≡ set)
      → Restored b c count
      → 8 < g
      → (c' : Bitmap) × Restored b c' b.total
        × (unpack_loop g c b.total count set (word_bytes (b.total - count))
            ≡ (finished c' b.total, []))
  replay_last b c set count zero v le run r more = absurd (omega arith)
  replay_last b c set count (suc zero) v le run r more = absurd (omega arith)
  replay_last b c set count (suc (suc g)) v le run r more = (
    if set then mark_region c count (b.total - count) else c,
    restore_step b c set count b.total r le (omega arith) run,
    ap (unpack_loop (suc (suc g)) c b.total count set)
          (sym (append-nil (word_bytes (b.total - count))))
        ∙ replay_word b c set count b.total (suc g) [] le (omega arith) v.small
        ∙ unpack_end g _ b.total b.total (not set),
  )
