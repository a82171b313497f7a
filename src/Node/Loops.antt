-- ===== src/Node/Loops.antt =====
-- The loops over item headers, as what they leave of each header.
use reiser4progs.Prelude.{
  ℕ, zero, suc, ◌+◌, ◌-◌, ◌≤◌, ◌<◌, ◌≡◌, ◌∙◌, ap, ==_iff, if◌then◌else◌, u16_mod, update, arith,
}
use reiser4progs.Aal.{in_region}
use reiser4progs.Node.{ItemHeader, add16, sub16, ih_inc_offset, ih_dec_offset}
use reiser4progs.Node.Space.{inc_offsets, dec_offsets}

pub inc_offsets_lem :
    (n : ℕ) (ih : ℕ → ItemHeader) (len i j : ℕ)
    → inc_offsets ih len i n j ≡ (if in_region i n j then ih_inc_offset (ih j) len else ih j)
unfolding inc_offsets in_region
inc_offsets_lem zero ih len i j = ground arith
inc_offsets_lem (suc n) ih len i j =
    inc_offsets_lem n (update ih i (ih_inc_offset (ih i) len)) len (i + 1) j
    ∙ ground (arith, ==_iff i j)

pub dec_offsets_lem :
    (n : ℕ) (ih : ℕ → ItemHeader) (len i j : ℕ)
    → dec_offsets ih len i n j ≡ (if in_region i n j then ih_dec_offset (ih j) len else ih j)
unfolding dec_offsets in_region
dec_offsets_lem zero ih len i j = ground arith
dec_offsets_lem (suc n) ih len i j =
    dec_offsets_lem n (update ih i (ih_dec_offset (ih i) len)) len (i + 1) j
    ∙ ground (arith, ==_iff i j)

-- By the place of a header, for an offset that does not wrap.
pub inc_offsets_inside :
    (n : ℕ) (ih : ℕ → ItemHeader) (len i j : ℕ)
    → i ≤ j
    → j < i + n
    → (ih j).offset + len < u16_mod
    → inc_offsets ih len i n j ≡ record (ih j) { offset = (ih j).offset + len }
unfolding in_region
inc_offsets_inside n ih len i j from to small =
    inc_offsets_lem n ih len i j
    ∙ ground (
      arith,
      ap (λ o. record (ih j) { offset = o }) {x = add16 (ih j).offset len} {y = (ih j).offset + len}
          (omega arith),
    )

pub inc_offsets_before :
    (n : ℕ) (ih : ℕ → ItemHeader) (len i j : ℕ) → j < i → inc_offsets ih len i n j ≡ ih j
unfolding in_region
inc_offsets_before n ih len i j lt = inc_offsets_lem n ih len i j ∙ ground arith

pub dec_offsets_inside :
    (n : ℕ) (ih : ℕ → ItemHeader) (len i j : ℕ)
    → i ≤ j
    → j < i + n
    → len ≤ (ih j).offset
    → (ih j).offset < u16_mod
    → dec_offsets ih len i n j ≡ record (ih j) { offset = (ih j).offset - len }
unfolding in_region
dec_offsets_inside n ih len i j from to le small =
    dec_offsets_lem n ih len i j
    ∙ ground (
      arith,
      ap (λ o. record (ih j) { offset = o }) {x = sub16 (ih j).offset len} {y = (ih j).offset - len}
          (omega arith),
    )

pub dec_offsets_before :
    (n : ℕ) (ih : ℕ → ItemHeader) (len i j : ℕ) → j < i → dec_offsets ih len i n j ≡ ih j
unfolding in_region
dec_offsets_before n ih len i j lt = dec_offsets_lem n ih len i j ∙ ground arith
