-- ===== src/Node/Rekey.antt =====
-- node40_shrink of units, after the item has got a new key.
use reiser4progs.Prelude.{
  ℕ, ◌+◌, ◌-◌, ◌≤◌, ◌<◌, ◌≡◌, ◌≢◌, refl, ◌∙◌, ap, inl, inr, ◌⊎◌, Bool-cases, List, ◌==◌,
  if◌then◌else◌, ltb, arith, subst, update_same, update_other,
}
use reiser4progs.Node.{Node, Pos, max_uint32}
use reiser4progs.Node.Contents.{bound, IsValid}
use reiser4progs.Node.Space.{shrink}
use reiser4progs.Node.Copy.{with_offset}
use reiser4progs.Node.Splice.{span}
use reiser4progs.Node.Place.{put_key, put_bytes}
use reiser4progs.Node.Resize.{Resized, with_key, shrink-Resized}

-- A new key in the header first, and then the new size.
bound-put_key :
    (node : Node) (p : ℕ) (key : List ℕ) (i : ℕ) → bound (put_key node p key) i ≡ bound node i
unfolding bound
bound-put_key node p key i = elim (Bool-cases (p == i)) [
  | inl same ↦ rw same (
      ap (λ k. if ltb i node.num_items then (node.ih k).offset else node.free_space_start) {x = p}
        {y = i} (ground arith))
  | inr other ↦ rw other
]

put_key-IsValid : (node : Node) (p : ℕ) (key : List ℕ) → IsValid node → IsValid (put_key node p key)
put_key-IsValid node p key v = record {
  ordered = λ i lt.
      omega (arith, bound-put_key node p key i, bound-put_key node p key (i + 1), v.ordered i lt);
  fits = v.fits;
  small = v.small;
}

Resized-put_key :
    (node node' : Node) (p cut grow : ℕ) (key new : List ℕ)
    → Resized (put_key node p key) node' p cut grow new
    → Resized node node' p cut grow new
Resized-put_key node node' p cut grow key new r = record {
  same_count = r.same_count;
  start = r.start;
  left = r.left;
  same_size = r.same_size;
  same_pol = r.same_pol;
  before = λ j lt. r.before j lt ∙ other j (omega arith);
  at = r.at ∙ ap (λ h. with_key h new) (update_same node.ih p p (with_key (node.ih p) key) refl);
  behind = λ j from lt.
      r.behind j from lt ∙ ap (λ h. with_offset h (h.offset + grow - cut)) (other j (omega arith));
  low = λ a lt. r.low a (omega (arith, bound-put_key node p key p));
  high = λ a from lt. r.high a (omega (arith, bound-put_key node p key (p + 1))) lt;
}
  where
    other : (j : ℕ) → p ≢ j → (put_key node p key).ih j ≡ node.ih j
    other j ne = update_other node.ih p j (with_key (node.ih p) key) ne

pub shrink-put_key :
    (node : Node) (p u len count : ℕ) (bytes : ℕ → ℕ) (key : List ℕ)
    → IsValid node
    → p < node.num_items
    → u ≢ max_uint32
    → len ≤ span node p 1
    → ((a : ℕ) → (a < bound node p) ⊎ (bound node (p + 1) ≤ a) → bytes a ≡ node.bytes a)
    → Resized node
        (shrink (put_key (put_bytes node bytes) p key) (record { item = p; unit = u }) len count)
        p
        len
        0
        key
shrink-put_key node p u len count bytes key v lt units le outside =
    Resized-put_key node _ p len 0 key key (
      subst
        (λ k.
          Resized (put_key node p key) (shrink (put_key (put_bytes node bytes) p key) pos len count)
            p len 0 k)
        (ap (λ h. h.key) (update_same node.ih p p (with_key (node.ih p) key) refl))
        (shrink-Resized (put_key node p key) p u len count bytes (put_key-IsValid node p key v) lt
          units (omega (arith, bound-put_key node p key p, bound-put_key node p key (p + 1)))
          (λ a h.
            outside a
              (ground (arith, h, bound-put_key node p key p, bound-put_key node p key (p + 1))))))
  where
    pos : Pos
    pos = record { item = p; unit = u }
