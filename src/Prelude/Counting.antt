-- ===== src/Prelude/Counting.antt =====
-- How many numbers of a range pass a test.
use Prim.Native.Nat.{ℕ, zero, suc, ◌+◌, ◌≤◌, ◌<◌}
use mathlib.Core.Path.{◌≡◌, refl, ap}
use mathlib.Core.Bool.{Bool, true, false, not}
use native.Mathlib.Omega.{arith}

abbrev pub to_nat : Bool → ℕ
to_nat true = 1
to_nat false = 0

-- Of the `k` numbers from `s` on.
unfoldable pub count_in : (ℕ → Bool) → ℕ → ℕ → ℕ
count_in p s zero = 0
count_in p s (suc k) = to_nat (p s) + count_in p (s + 1) k

pub count_in-le : (p : ℕ → Bool) (s k : ℕ) → count_in p s k ≤ k
unfolding count_in
count_in-le p s zero = omega arith
count_in-le p s (suc k) = ground (arith, count_in-le p (s + 1) k)

pub count_in-add :
    (p : ℕ → Bool) (s k l : ℕ) → count_in p s (k + l) ≡ count_in p s k + count_in p (s + k) l
unfolding count_in
count_in-add p s zero l = omega (
  arith,
  ap (count_in p s) {x = 0 + l} {y = l} (omega arith),
  ap (λ t. count_in p t l) {x = s + 0} {y = s} (omega arith),
)
count_in-add p s (suc k) l = omega (
  arith,
  ap (count_in p s) {x = suc k + l} {y = suc (k + l)} (omega arith),
  ap (λ t. count_in p t l) {x = s + suc k} {y = s + 1 + k} (omega arith),
  count_in-add p (s + 1) k l,
)

pub count_in_ext :
    (p q : ℕ → Bool) (s k : ℕ)
    → ((j : ℕ) → s ≤ j → j < s + k → p j ≡ q j)
    → count_in p s k ≡ count_in q s k
unfolding count_in
count_in_ext p q s zero h = refl
count_in_ext p q s (suc k) h =
    ground (arith, h s, count_in_ext p q (s + 1) k (λ j a b. h j (omega arith) (omega arith)))

-- Every number passes the test or its negation.
pub count_in-not : (p : ℕ → Bool) (s k : ℕ) → count_in p s k + count_in (λ j. not (p j)) s k ≡ k
unfolding count_in
count_in-not p s zero = refl
count_in-not p s (suc k) = ground (arith, count_in-not p (s + 1) k)

pub count_in_all :
    (p : ℕ → Bool) (s k : ℕ) → ((j : ℕ) → s ≤ j → j < s + k → p j ≡ true) → count_in p s k ≡ k
unfolding count_in
count_in_all p s zero h = refl
count_in_all p s (suc k) h =
    ground (arith, h s, count_in_all p (s + 1) k (λ j a b. h j (omega arith) (omega arith)))

pub count_in_none :
    (p : ℕ → Bool) (s k : ℕ) → ((j : ℕ) → s ≤ j → j < s + k → p j ≡ false) → count_in p s k ≡ 0
unfolding count_in
count_in_none p s zero h = refl
count_in_none p s (suc k) h =
    ground (arith, h s, count_in_none p (s + 1) k (λ j a b. h j (omega arith) (omega arith)))
