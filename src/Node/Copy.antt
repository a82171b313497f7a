-- ===== src/Node/Copy.antt =====
-- node40_copy into the room that node40_expand made: the new headers and bodies.
use reiser4progs.Prelude.{
  ℕ, zero, suc, ◌+◌, ◌-◌, ◌%◌, ◌≤◌, ◌<◌, ◌≡◌, refl, ◌∙◌, ap, ap₂, ◌==◌, if◌then◌else◌, u16_mod,
  u32_mod, update, update_same, update_other, arith,
}
use reiser4progs.Node.{ItemHeader, sub32}
use reiser4progs.Node.Space.{copy_offsets}

abbrev pub with_offset : ItemHeader → ℕ → ItemHeader
with_offset h v = record h { offset = v }

pub copy_offsets_before :
    (n : ℕ) (ih : ℕ → ItemHeader) (fss last o i j : ℕ)
    → j < i
    → copy_offsets ih fss last o i n j ≡ ih j
unfolding copy_offsets
copy_offsets_before zero ih fss last o i j lt = refl
copy_offsets_before (suc n) ih fss last o i j lt =
    copy_offsets_before n _ fss last _ (i + 1) j (omega arith)
    ∙ update_other ih i j (record (ih i) { offset = o % u16_mod }) (omega arith)

pub copy_offsets_behind :
    (n : ℕ) (ih : ℕ → ItemHeader) (fss last o i j : ℕ)
    → i + n ≤ j
    → copy_offsets ih fss last o i n j ≡ ih j
unfolding copy_offsets
copy_offsets_behind zero ih fss last o i j le = refl
copy_offsets_behind (suc n) ih fss last o i j le =
    copy_offsets_behind n _ fss last _ (i + 1) j (omega arith)
    ∙ update_other ih i j (record (ih i) { offset = o % u16_mod }) (omega arith)

-- The headers `h`, in order of their offsets, get new offsets from `o` on.
pub copy_offsets_inside :
    (n : ℕ) (ih h : ℕ → ItemHeader) (fss last o i top : ℕ)
    → ((k : ℕ) → k < n → ih (i + k) ≡ h k)
    → i + n ≤ last + 1
    → ((k l : ℕ) → k ≤ l → l < n → (h k).offset ≤ (h l).offset)
    → ((k : ℕ) → k < n → (h k).offset ≤ top)
    → o + (top - (h 0).offset) < u16_mod
    → (k : ℕ) → k < n
    → copy_offsets ih fss last o i n (i + k)
      ≡ record (h k) { offset = o + ((h k).offset - (h 0).offset) }
unfolding copy_offsets
copy_offsets_inside zero ih h fss last o i top same inside mono le small k lt = absurd (omega arith)
copy_offsets_inside (suc n) ih h fss last o i top same inside mono le small zero lt =
    copy_offsets_before n _ fss last _ (i + 1) (i + 0) (omega arith)
    ∙ update_same ih i (i + 0) (record (ih i) { offset = o % u16_mod }) (omega arith)
    ∙ ap₂ with_offset (ap ih (omega arith) ∙ same 0 (omega arith))
        (omega (arith, le 0 (omega arith)))
copy_offsets_inside (suc n) ih h fss last o i top same inside mono le small (suc k) lt =
    ap (λ v. copy_offsets set fss last v (i + 1) n (i + suc k)) next
    ∙ ap (copy_offsets set fss last (o + ((h 1).offset - (h 0).offset)) (i + 1) n) {x = i + suc k}
        {y = i + 1 + k} (omega arith)
    ∙ copy_offsets_inside n set (λ l. h (suc l)) fss last (o + ((h 1).offset - (h 0).offset))
        (i + 1) top (λ l below. set_other l below) (omega arith)
        (λ a b ab below. mono (suc a) (suc b) (omega arith) (omega arith))
        (λ a below. le (suc a) (omega arith))
        (omega (arith, small, mono 0 1 (omega arith) (omega arith), le 1 (omega arith))) k
        (omega arith)
    ∙ ap (with_offset (h (suc k))) (
        omega
          (arith, mono 0 1 (omega arith) (omega arith), mono 1 (suc k) (omega arith) (omega arith)))
  where
    set : ℕ → ItemHeader
    set = update ih i (record (ih i) { offset = o % u16_mod })

    set_other : (l : ℕ) → l < n → set (i + 1 + l) ≡ h (suc l)
    set_other l below =
        update_other ih i (i + 1 + l) (record (ih i) { offset = o % u16_mod }) (omega arith)
        ∙ ap ih {x = i + 1 + l} {y = i + suc l} (omega arith)
        ∙ same (suc l) (omega arith)

    first : (ih i).offset ≡ (h 0).offset
    first = ap (λ g. g.offset) (ap ih {x = i} {y = i + 0} (omega arith) ∙ same 0 (omega arith))

    second : (set (i + 1)).offset ≡ (h 1).offset
    second =
        ap (λ g. g.offset)
          (ap set {x = i + 1} {y = i + 1 + 0} (omega arith) ∙ set_other 0 (omega arith))

    next :
        (if i == last
          then (o + sub32 fss (set i).offset) % u32_mod
          else (o + sub32 (set (i + 1)).offset (ih i).offset) % u32_mod)
        ≡ o + ((h 1).offset - (h 0).offset)
    next =
        ground
          (arith, small, first, second, mono 0 1 (omega arith) (omega arith), le 1 (omega arith))
