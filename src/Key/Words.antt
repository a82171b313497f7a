-- ===== src/Key/Words.antt =====
-- Masks that split a word at a bit: what `&` keeps above it and below it, and what `|` joins.
use reiser4progs.Prelude.{
  ℕ, ◌+◌, ◌-◌, ◌*◌, ◌^◌, ◌<◌, ◌≡◌, ap, ap₂, bit_and, bit_or, bit_and_split, bit_or_split,
  bit_and-zero, bit_and_ones, bit_or-zero, zero-bit_or, arith,
}

-- The low `k` bits.
pub bit_and_low : (m k a x : ℕ) → a < 2 ^ m → x < 2 ^ k → bit_and (a * 2 ^ k + x) (2 ^ k - 1) ≡ x
bit_and_low m k a x ha hx = omega (
  arith,
  bit_and_split k a 0 x (2 ^ k - 1) hx (omega arith),
  ap (bit_and (a * 2 ^ k + x)) {x = 0 * 2 ^ k + (2 ^ k - 1)} {y = 2 ^ k - 1} (omega arith),
  ap (λ t. t * 2 ^ k) (bit_and-zero m a ha),
  bit_and_ones k x hx,
)

-- The bits from `k` on.
pub bit_and_high :
    (m k a x : ℕ)
    → a < 2 ^ m
    → x < 2 ^ k
    → bit_and (a * 2 ^ k + x) ((2 ^ m - 1) * 2 ^ k) ≡ a * 2 ^ k
bit_and_high m k a x ha hx = omega (
  arith,
  bit_and_split k a (2 ^ m - 1) x 0 hx (omega arith),
  ap (bit_and (a * 2 ^ k + x)) {x = (2 ^ m - 1) * 2 ^ k + 0} {y = (2 ^ m - 1) * 2 ^ k}
      (omega arith),
  ap (λ t. t * 2 ^ k) (bit_and_ones m a ha),
  bit_and-zero k x hx,
)

-- A low part joined to a high one.
pub bit_or_join : (k a x : ℕ) → x < 2 ^ k → bit_or x (a * 2 ^ k) ≡ a * 2 ^ k + x
bit_or_join k a x hx = omega (
  arith,
  bit_or_split k 0 a x 0 hx (omega arith),
  ap₂ bit_or {x = 0 * 2 ^ k + x} {y = x} {u = a * 2 ^ k + 0} {v = a * 2 ^ k} (omega arith)
      (omega arith),
  ap (λ t. t * 2 ^ k) (zero-bit_or a),
  bit_or-zero k x hx,
)
