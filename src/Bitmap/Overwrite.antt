-- ===== src/Bitmap/Overwrite.antt =====
-- What it is to overwrite a region of a bitmap with one value, and how the counter has to move.
use reiser4progs.Prelude.{
  ℕ, ◌+◌, ◌-◌, ◌≤◌, ◌<◌, ◌≡◌, refl, ◌∙◌, ap, Bool, true, false, List, ◌==◌, ==_iff, if◌then◌else◌,
  length, to_nat, count_in, count_in_ext, count_in-add, count_in-le, count_in_all, count_in_none,
  arith,
}
use reiser4progs.Aal.{bit_at, in_region}
use reiser4progs.Bitmap.{Bitmap}
use reiser4progs.Bitmap.Contents.{contents, IsValid}

-- `b'` is `b` with the value `v` in the region, and a counter that agrees.
pub record Wrote (v : Bool) (b b' : Bitmap) (start count : ℕ) : Type 0 where
  pub valid : IsValid b'
  pub same_total : b'.total ≡ b.total
  pub same_size : b'.size ≡ b.size
  pub written : (j : ℕ) → contents b' j ≡ (if in_region start count j then v else contents b j)
  pub moved :
      b'.marked + count_in (contents b) start count ≡ b.marked + count_in (λ _. v) start count

-- Overwriting a region with `v` changes a count by what the region held before.
count_in_overwritten :
    (v : Bool) (p q : ℕ → Bool) (s c t : ℕ)
    → s + c ≤ t
    → ((j : ℕ) → q j ≡ (if in_region s c j then v else p j))
    → count_in q 0 t + count_in p s c ≡ count_in p 0 t + count_in (λ _. v) s c
unfolding in_region
count_in_overwritten v p q s c t h e = omega (
  arith,
  parts p,
  parts q,
  count_in_ext q p 0 s (λ j a b. e j ∙ ground arith),
  count_in_ext q (λ _. v) s c (λ j a b. e j ∙ ground arith),
  count_in_ext q p (s + c) (t - (s + c)) (λ j a b. e j ∙ ground arith),
)
  where
    parts :
        (r : ℕ → Bool)
        → count_in r 0 t ≡ count_in r 0 s + count_in r s c + count_in r (s + c) (t - (s + c))
    parts r = omega (
      arith,
      ap (count_in r 0) {x = t} {y = s + (c + (t - (s + c)))} (omega arith),
      count_in-add r 0 s (c + (t - (s + c))),
      ap (λ k. count_in r k (c + (t - (s + c)))) {x = 0 + s} {y = s} (omega arith),
      count_in-add r s c (t - (s + c)),
    )

-- The marked blocks of a region are among those of the bitmap, and its cleared ones fit beside them.
pub count_in_parts-le :
    (b : Bitmap)
    → IsValid b
    → (s c : ℕ) → s + c ≤ b.total
    → (count_in (contents b) s c ≤ b.marked) × (b.marked + c ≤ b.total + count_in (contents b) s c)
count_in_parts-le b v s c h = omega (
  arith,
  v.counted,
  ap (count_in (contents b) 0) {x = b.total} {y = s + (c + (b.total - (s + c)))} (omega arith),
  count_in-add (contents b) 0 s (c + (b.total - (s + c))),
  ap (λ k. count_in (contents b) k (c + (b.total - (s + c)))) {x = 0 + s} {y = s} (omega arith),
  count_in-add (contents b) s c (b.total - (s + c)),
  count_in-le (contents b) 0 s,
  count_in-le (contents b) (s + c) (b.total - (s + c)),
)

overwritten_contents :
    (v : Bool) (b : Bitmap) (s c : ℕ) (m : List ℕ) (n : ℕ)
    → s + c ≤ b.total
    → (j : ℕ) → bit_at m j ≡ (if in_region s c j then v else bit_at b.bytes j)
    → contents (record b { bytes = m; marked = n }) j
      ≡ (if in_region s c j then v else contents b j)
unfolding contents in_region
overwritten_contents v b s c m n h j e = ground arith

pub count_in-true : (s c : ℕ) → count_in (λ _. true) s c ≡ c
count_in-true s c = count_in_all (λ _. true) s c (λ j a b. refl)

pub count_in-false : (s c : ℕ) → count_in (λ _. false) s c ≡ 0
count_in-false s c = count_in_none (λ _. false) s c (λ j a b. refl)

pub in_region-one : (s j : ℕ) → in_region s 1 j ≡ (s == j)
unfolding in_region
in_region-one s j = ground arith

pub contents-inside : (b : Bitmap) (j : ℕ) → j < b.total → contents b j ≡ bit_at b.bytes j
unfolding contents
contents-inside b j h = ground arith

pub count_in-one : (p : ℕ → Bool) (s : ℕ) → count_in p s 1 ≡ to_nat (p s)
unfolding count_in
count_in-one p s = omega arith

-- Nothing is written where the region is empty.
pub empty-Wrote : (v : Bool) (b : Bitmap) (s : ℕ) → IsValid b → Wrote v b b s 0
unfolding in_region count_in
empty-Wrote v b s valid = record {
  valid = valid;
  same_total = refl;
  same_size = refl;
  written = λ j. ground arith;
  moved = refl;
}

-- A bitmap that has the value already.
pub unchanged-Wrote :
    (v : Bool) (b : Bitmap) (bit : ℕ) → IsValid b → contents b bit ≡ v → Wrote v b b bit 1
unchanged-Wrote v b bit valid e = record {
  valid = valid;
  same_total = refl;
  same_size = refl;
  written = λ j. rw (in_region-one bit j) (held j);
  moved = omega (arith, count_in-one (contents b) bit, count_in-one (λ _. v) bit, ap to_nat e);
}
  where
    held : (j : ℕ) → contents b j ≡ (if bit == j then v else contents b j)
    held j = ground (arith, e, ==_iff bit j)

-- New bytes with the value `v` in the region, and a counter moved by what the region held.
pub overwrite-Wrote :
    (v : Bool) (b : Bitmap) (s c : ℕ) (m : List ℕ) (n : ℕ)
    → IsValid b
    → s + c ≤ b.total
    → length m ≡ length b.bytes
    → ((j : ℕ) → bit_at m j ≡ (if in_region s c j then v else bit_at b.bytes j))
    → n + count_in (contents b) s c ≡ b.marked + count_in (λ _. v) s c
    → Wrote v b (record b { bytes = m; marked = n }) s c
overwrite-Wrote v b s c m n valid h len wrote moved = record {
  valid = record {
    small = valid.small;
    sized = omega (arith, valid.sized);
    exact = valid.exact;
    room = omega (arith, valid.room);
    counted = omega (
      arith,
      valid.counted,
      count_in_overwritten v (contents b) (contents b') s c b.total h written,
    );
  };
  same_total = refl;
  same_size = refl;
  written = written;
  moved = moved;
}
  where
    b' : Bitmap
    b' = record b { bytes = m; marked = n }

    written : (j : ℕ) → contents b' j ≡ (if in_region s c j then v else contents b j)
    written j = overwritten_contents v b s c m n h j (wrote j)

-- One bit written over a bit of the other value, and a counter moved by one.
pub bit-Wrote :
    (v : Bool) (b : Bitmap) (bit : ℕ) (m : List ℕ) (n : ℕ)
    → IsValid b
    → bit < b.total
    → length m ≡ length b.bytes
    → ((j : ℕ) → bit_at m j ≡ (if bit == j then v else bit_at b.bytes j))
    → n + to_nat (contents b bit) ≡ b.marked + to_nat v
    → Wrote v b (record b { bytes = m; marked = n }) bit 1
bit-Wrote v b bit m n valid h len e moved =
    overwrite-Wrote v b bit 1 m n valid (omega arith) len (λ j. rw (in_region-one bit j) (e j))
      (omega (arith, count_in-one (contents b) bit, count_in-one (λ _. v) bit))
