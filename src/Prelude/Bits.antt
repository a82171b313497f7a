-- ===== src/Prelude/Bits.antt =====
-- Machine words: the bit operations at variables, split at a bit position into a high and a low
-- part, and masks.
use Prim.Native.Nat.{
  ℕ, zero, suc, ◌+◌, ◌-◌, ◌*◌, ◌/◌, ◌%◌, ◌^◌, ◌≤◌, ◌<◌, min, max, bit_and, bit_or, digits,
  bit_and-bitwise, bit_or-bitwise,
}
use mathlib.Core.Path.{◌≡◌, refl, ap, ap₂}
use mathlib.Core.Bool.{Bool, true, ◌&&◌}
use native.Mathlib.Omega.{arith}
use native.Mathlib.Nat.{pow-suc}

-- The values of uint32_t, uint64_t and uint8_t are the numbers below these.
abbrev pub u64_mod : ℕ
u64_mod = 2 ^ 64

abbrev pub u32_mod : ℕ
u32_mod = 2 ^ 32

abbrev pub u16_mod : ℕ
u16_mod = 2 ^ 16

abbrev pub u8_mod : ℕ
u8_mod = 2 ^ 8

-- A test that every number below the bound passes, by evaluation.
unfoldable pub all_below : ℕ → (ℕ → Bool) → Bool
all_below zero test = true
all_below (suc bound) test = all_below bound test && test bound

pub all_below_sound :
    (bound : ℕ) (test : ℕ → Bool) (k : ℕ) → all_below bound test ≡ true → k < bound → test k ≡ true
unfolding all_below
all_below_sound zero test k passed below = absurd (omega arith)
all_below_sound (suc bound) test k passed below = ground (arith, all_below_sound bound test k)

-- Both operations recur on binary digits with fuel; enough fuel gives one answer.
module _ (z : ℕ → ℕ) (f : ℕ → ℕ → ℕ) where
  digits_enough : (f1 f2 x y : ℕ) → x ≤ f1 → x ≤ f2 → digits z f f1 x y ≡ digits z f f2 x y
  digits_enough zero zero a b p q = refl
  digits_enough (suc n) zero zero b p q = refl
  digits_enough (suc n) zero (suc a) b p q = absurd (omega arith)
  digits_enough zero (suc m) zero b p q = refl
  digits_enough zero (suc m) (suc a) b p q = absurd (omega arith)
  digits_enough (suc n) (suc m) zero b p q = refl
  digits_enough (suc n) (suc m) (suc a) b p q =
      rw (digits_enough n m (suc a / 2) (b / 2) (omega arith) (omega arith))

-- One binary digit at a time, from the lowest.
pub bit_and_digit : (a b : ℕ) → bit_and a b ≡ bit_and (a / 2) (b / 2) * 2 + min (a % 2) (b % 2)
bit_and_digit zero b = omega (arith, bit_and-bitwise 0 b, bit_and-bitwise 0 (b / 2))
bit_and_digit (suc a) b = omega (
  arith,
  bit_and-bitwise (suc a) b,
  bit_and-bitwise (suc a / 2) (b / 2),
  digits_enough (λ b. 0) min a (suc a / 2) (suc a / 2) (b / 2) (omega arith) (omega arith),
)

pub bit_or_digit : (a b : ℕ) → bit_or a b ≡ bit_or (a / 2) (b / 2) * 2 + max (a % 2) (b % 2)
bit_or_digit zero b = omega (arith, bit_or-bitwise 0 b, bit_or-bitwise 0 (b / 2))
bit_or_digit (suc a) b = omega (
  arith,
  bit_or-bitwise (suc a) b,
  bit_or-bitwise (suc a / 2) (b / 2),
  digits_enough (λ b. b) max a (suc a / 2) (suc a / 2) (b / 2) (omega arith) (omega arith),
)

pub bit_or_zero : bit_or 0 0 ≡ 0
bit_or_zero = refl

pub zero-bit_or : (b : ℕ) → bit_or 0 b ≡ b
zero-bit_or b = bit_or-bitwise 0 b

pub zero-bit_and : (b : ℕ) → bit_and 0 b ≡ 0
zero-bit_and b = bit_and-bitwise 0 b

pub bit_or-zero : (k a : ℕ) → a < 2 ^ k → bit_or a 0 ≡ a
bit_or-zero zero zero h = refl
bit_or-zero zero (suc a) h = absurd (omega arith)
bit_or-zero (suc k) a h =
    omega (arith, bit_or_digit a 0, bit_or-zero k (a / 2) (omega (arith, pow-suc 2 k)))

pub bit_and-zero : (k a : ℕ) → a < 2 ^ k → bit_and a 0 ≡ 0
bit_and-zero zero zero h = refl
bit_and-zero zero (suc a) h = absurd (omega arith)
bit_and-zero (suc k) a h =
    omega (arith, bit_and_digit a 0, bit_and-zero k (a / 2) (omega (arith, pow-suc 2 k)))

field_double : (k c : ℕ) → c * 2 ^ suc k ≡ 2 * (c * 2 ^ k)
field_double k c = omega (arith, ap (λ (t : ℕ). c * t) (pow-suc 2 k))

field_half : (k c z : ℕ) → (c * 2 ^ suc k + z) / 2 ≡ c * 2 ^ k + z / 2
field_half k c z = omega (arith, field_double k c)

-- Above and below bit k the operations do not meet.
pub bit_or_split :
    (k a b x y : ℕ)
    → x < 2 ^ k
    → y < 2 ^ k
    → bit_or (a * 2 ^ k + x) (b * 2 ^ k + y) ≡ bit_or a b * 2 ^ k + bit_or x y
bit_or_split zero a b zero zero hx hy =
    omega (
      arith,
      ap₂ bit_or {x = a * 1 + 0} {y = a} {u = b * 1 + 0} {v = b} (omega arith) (omega arith),
    )
bit_or_split zero a b zero (suc y) hx hy = absurd (omega arith)
bit_or_split zero a b (suc x) y hx hy = absurd (omega arith)
bit_or_split (suc k) a b x y hx hy = omega (
  arith,
  field_double k a,
  field_double k b,
  field_double k (bit_or a b),
  bit_or_digit (a * 2 ^ suc k + x) (b * 2 ^ suc k + y),
  bit_or_digit x y,
  bit_or_split k a b (x / 2) (y / 2) (omega arith) (omega arith),
  ap₂ bit_or (field_half k a x) (field_half k b y),
)

pub bit_and_split :
    (k a b x y : ℕ)
    → x < 2 ^ k
    → y < 2 ^ k
    → bit_and (a * 2 ^ k + x) (b * 2 ^ k + y) ≡ bit_and a b * 2 ^ k + bit_and x y
bit_and_split zero a b zero zero hx hy =
    omega (
      arith,
      ap₂ bit_and {x = a * 1 + 0} {y = a} {u = b * 1 + 0} {v = b} (omega arith) (omega arith),
    )
bit_and_split zero a b zero (suc y) hx hy = absurd (omega arith)
bit_and_split zero a b (suc x) y hx hy = absurd (omega arith)
bit_and_split (suc k) a b x y hx hy = omega (
  arith,
  field_double k a,
  field_double k b,
  field_double k (bit_and a b),
  bit_and_digit (a * 2 ^ suc k + x) (b * 2 ^ suc k + y),
  bit_and_digit x y,
  bit_and_split k a b (x / 2) (y / 2) (omega arith) (omega arith),
  ap₂ bit_and (field_half k a x) (field_half k b y),
)

-- A mask of k ones.
pub bit_and_ones : (k a : ℕ) → a < 2 ^ k → bit_and a (2 ^ k - 1) ≡ a
bit_and_ones zero zero h = refl
bit_and_ones zero (suc a) h = absurd (omega arith)
bit_and_ones (suc k) a h = omega (
  arith,
  pow-suc 2 k,
  bit_and_digit a (2 ^ suc k - 1),
  bit_and_ones k (a / 2) (omega (arith, pow-suc 2 k)),
  ap (bit_and (a / 2)) {x = (2 ^ suc k - 1) / 2} {y = 2 ^ k - 1} (omega (arith, pow-suc 2 k)),
)

pub bit_or-lt : (k x y : ℕ) → x < 2 ^ k → y < 2 ^ k → bit_or x y < 2 ^ k
bit_or-lt zero zero zero hx hy = omega arith
bit_or-lt zero zero (suc y) hx hy = absurd (omega arith)
bit_or-lt zero (suc x) y hx hy = absurd (omega arith)
bit_or-lt (suc k) x y hx hy = omega (
  arith,
  pow-suc 2 k,
  bit_or_digit x y,
  bit_or-lt k (x / 2) (y / 2) (omega (arith, pow-suc 2 k)) (omega (arith, pow-suc 2 k)),
)

pow_pos : (k : ℕ) → 0 < 2 ^ k
pow_pos zero = omega arith
pow_pos (suc k) = omega (arith, pow_pos k, pow-suc 2 k)

-- Joined by `|`, a field above bit k and one below it add up.
pub bit_or_disjoint :
    (m k hi lo : ℕ) → hi < 2 ^ m → lo < 2 ^ k → bit_or (hi * 2 ^ k) lo ≡ hi * 2 ^ k + lo
bit_or_disjoint m k hi lo h l = omega (
  arith,
  bit_or_split k hi 0 0 lo (pow_pos k) l,
  ap₂ bit_or {x = hi * 2 ^ k + 0} {y = hi * 2 ^ k} {u = 0 * 2 ^ k + lo} {v = lo} (omega arith)
      (omega arith),
  ap (λ t. t * 2 ^ k) (bit_or-zero m hi h),
  zero-bit_or lo,
)
