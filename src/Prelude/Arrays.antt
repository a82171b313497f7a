-- ===== src/Prelude/Arrays.antt =====
-- Memory and arrays as functions of the index: single writes, moved and copied ranges, and the list of
-- a range.
use Prim.Native.Nat.{ℕ, zero, suc, ◌+◌, ◌-◌, ◌≤◌, ◌<◌}
use mathlib.Core.Path.{◌≡◌, refl, ap, ap₂, ◌∙◌}
use mathlib.Core.Logic.{◌≢◌}
use mathlib.Core.Bool.{◌&&◌}
use mathlib.Core.List.{List, [], ◌∷◌, ◌++◌}
use native.Mathlib.Omega.{arith}
use package.reiser4progs.Prelude.Tests.{ltb, leb, ◌==◌, if◌then◌else◌}
use package.reiser4progs.Prelude.Lists.{length, take, drop}

module _ {A : Type 0} where
  abbrev pub update : (ℕ → A) → ℕ → A → ℕ → A
  update m i v j = if i == j then v else m j

  -- memcpy of `n` cells; memmove is a copy within one array.
  abbrev pub memcpy : (ℕ → A) → ℕ → (ℕ → A) → ℕ → ℕ → ℕ → A
  memcpy m dst m' src n a = if leb dst a && ltb a (dst + n) then m' (src + (a - dst)) else m a

  abbrev pub memmove : (ℕ → A) → ℕ → ℕ → ℕ → ℕ → A
  memmove m dst src n = memcpy m dst m src n

  unfoldable pub tabulate : ℕ → (ℕ → A) → List A
  tabulate zero f = []
  tabulate (suc n) f = f 0 ∷ tabulate n (λ i. f (suc i))

  pub tabulate_ext :
      (n : ℕ) (f g : ℕ → A) → ((i : ℕ) → i < n → f i ≡ g i) → tabulate n f ≡ tabulate n g
  unfolding tabulate
  tabulate_ext zero f g h = refl
  tabulate_ext (suc n) f g h =
      ap₂ (λ x xs. x ∷ xs) (h 0 (omega arith))
        (tabulate_ext n (λ i. f (suc i)) (λ i. g (suc i)) (λ i lt. h (suc i) (omega arith)))

  pub tabulate-add :
      (n k : ℕ) (f : ℕ → A) → tabulate (n + k) f ≡ tabulate n f ++ tabulate k (λ i. f (n + i))
  unfolding tabulate
  tabulate-add zero k f =
      ap (λ t. tabulate t f) {x = 0 + k} {y = k} (omega arith)
      ∙ tabulate_ext k f (λ i. f (0 + i)) (λ i lt. ap f (omega arith))
  tabulate-add (suc n) k f =
      ap (λ t. tabulate t f) {x = suc n + k} {y = suc (n + k)} (omega arith)
      ∙ ap (λ xs. f 0 ∷ xs)
          (tabulate-add n k (λ i. f (suc i))
            ∙ ap (λ xs. tabulate n (λ i. f (suc i)) ++ xs)
                (tabulate_ext k (λ i. f (suc (n + i))) (λ i. f (suc n + i))
                  (λ i lt. ap f (omega arith))))

  pub length-tabulate : (n : ℕ) (f : ℕ → A) → length (tabulate n f) ≡ n
  unfolding tabulate
  length-tabulate zero f = refl
  length-tabulate (suc n) f = ap suc (length-tabulate n (λ i. f (suc i)))

  -- A shorter list of the same function is a prefix, and the rest of it follows.
  pub take-tabulate : (k n : ℕ) (f : ℕ → A) → k ≤ n → take k (tabulate n f) ≡ tabulate k f
  unfolding tabulate
  take-tabulate zero n f h = refl
  take-tabulate (suc k) zero f h = absurd (omega arith)
  take-tabulate (suc k) (suc n) f h =
      ap (λ xs. f 0 ∷ xs) (take-tabulate k n (λ i. f (suc i)) (omega arith))

  pub drop-tabulate :
      (k n : ℕ) (f : ℕ → A) → k ≤ n → drop k (tabulate n f) ≡ tabulate (n - k) (λ i. f (k + i))
  unfolding tabulate
  drop-tabulate zero n f h =
      ap (λ t. tabulate t f) {x = n} {y = n - 0} (omega arith)
      ∙ tabulate_ext (n - 0) f (λ i. f (0 + i)) (λ i lt. ap f (omega arith))
  drop-tabulate (suc k) zero f h = absurd (omega arith)
  drop-tabulate (suc k) (suc n) f h =
      drop-tabulate k n (λ i. f (suc i)) (omega arith)
      ∙ ap (λ t. tabulate t (λ i. f (suc (k + i)))) {x = n - k} {y = suc n - suc k} (omega arith)
      ∙ tabulate_ext (suc n - suc k) (λ i. f (suc (k + i))) (λ i. f (suc k + i))
          (λ i lt. ap f (omega arith))

  pub update_same : (m : ℕ → A) (i j : ℕ) (v : A) → i ≡ j → update m i v j ≡ v
  update_same m i j v e = ground arith

  pub update_other : (m : ℕ → A) (i j : ℕ) (v : A) → i ≢ j → update m i v j ≡ m j
  update_other m i j v ne = ground arith

  -- A copied range by its offset, and what lies in front of it and behind it.
  pub memcpy_inside :
      (m m' : ℕ → A) (dst src n a k : ℕ)
      → a ≡ dst + k
      → k < n
      → memcpy m dst m' src n a ≡ m' (src + k)
  memcpy_inside m m' dst src n a k e lt =
      ground (arith, ap m' {x = src + (a - dst)} {y = src + k} (omega arith))

  pub memcpy_before : (m m' : ℕ → A) (dst src n a : ℕ) → a < dst → memcpy m dst m' src n a ≡ m a
  memcpy_before m m' dst src n a lt = ground arith

  pub memcpy_behind : (m m' : ℕ → A) (dst src n a : ℕ) → dst + n ≤ a → memcpy m dst m' src n a ≡ m a
  memcpy_behind m m' dst src n a le = ground arith
