-- ===== src/Bitmap/Bytes.antt =====
-- The bytes under a bit array: what a copy, a fill and a complement do to its bits.
use reiser4progs.Prelude.{
  ℕ, zero, suc, ◌+◌, ◌-◌, ◌*◌, ◌/◌, ◌%◌, ◌≤◌, ◌<◌, ◌≡◌, refl, ◌∙◌, ap, false, not, if◌then◌else◌,
  length, get_or, map, take, replicate, List, [], ◌∷◌, ◌++◌, u8_mod, arith,
}
use reiser4progs.Aal.{Aal, bit_of, bit_at, in_region}
use reiser4progs.Bitmap.{clear_loop}

pub get_or-replicate : (n i : ℕ) → get_or {A = ℕ} (replicate n 0) i 0 ≡ 0
get_or-replicate zero i = refl
get_or-replicate (suc n) zero = refl
get_or-replicate (suc n) (suc i) = get_or-replicate n i

pub bit_at-zeros : (n j : ℕ) → bit_at (replicate n 0) j ≡ false
unfolding bit_at
bit_at-zeros n j = rw (get_or-replicate n (j / 8)) (zero_bit (j % 8))
  where
    zero_bit : (k : ℕ) → bit_of 0 k ≡ false
    zero_bit k = ground arith

pub get_or-map :
    (f : ℕ → ℕ) (m : List ℕ) (i : ℕ) → i < length m → get_or (map f m) i 0 ≡ f (get_or m i 0)
get_or-map f [] i h = absurd (omega arith)
get_or-map f (x ∷ m) zero h = refl
get_or-map f (x ∷ m) (suc i) h = get_or-map f m i (omega arith)

pub get_or-take : (n : ℕ) (m : List ℕ) (i : ℕ) → i < n → get_or (take n m) i 0 ≡ get_or m i 0
get_or-take zero m i h = absurd (omega arith)
get_or-take (suc n) [] i h = refl
get_or-take (suc n) (x ∷ m) zero h = refl
get_or-take (suc n) (x ∷ m) (suc i) h = get_or-take n m i (omega arith)

pub get_or-append_left :
    (xs ys : List ℕ) (i : ℕ) → i < length xs → get_or (xs ++ ys) i 0 ≡ get_or xs i 0
get_or-append_left [] ys i h = absurd (omega arith)
get_or-append_left (x ∷ xs) ys zero h = refl
get_or-append_left (x ∷ xs) ys (suc i) h = get_or-append_left xs ys i (omega arith)

pub get_or-append_right :
    (xs ys : List ℕ) (i : ℕ) → length xs ≤ i → get_or (xs ++ ys) i 0 ≡ get_or ys (i - length xs) 0
get_or-append_right [] ys i h = ap (λ k. get_or ys k 0) (omega arith)
get_or-append_right (x ∷ xs) ys zero h = absurd (omega arith)
get_or-append_right (x ∷ xs) ys (suc i) h =
    get_or-append_right xs ys i (omega arith) ∙ ap (λ k. get_or ys k 0) (omega arith)

-- The complement of a byte flips each of its bits.
pub complement-bit : (x k : ℕ) → k < 8 → bit_of (u8_mod - 1 - x % u8_mod) k ≡ not (bit_of x k)
complement-bit x zero h = ground arith
complement-bit x (suc zero) h = ground arith
complement-bit x (suc (suc zero)) h = ground arith
complement-bit x (suc (suc (suc zero))) h = ground arith
complement-bit x (suc (suc (suc (suc zero)))) h = ground arith
complement-bit x (suc (suc (suc (suc (suc zero))))) h = ground arith
complement-bit x (suc (suc (suc (suc (suc (suc zero)))))) h = ground arith
complement-bit x (suc (suc (suc (suc (suc (suc (suc zero))))))) h = ground arith
complement-bit x (suc (suc (suc (suc (suc (suc (suc (suc k)))))))) h = absurd (omega arith)

pub bit_at-complement :
    (m : List ℕ) (j : ℕ)
    → j < 8 * length m
    → bit_at (map (λ x. u8_mod - 1 - x % u8_mod) m) j ≡ not (bit_at m j)
unfolding bit_at
bit_at-complement m j h =
    rw (get_or-map (λ x. u8_mod - 1 - x % u8_mod) m (j / 8) (omega arith))
      (complement-bit (get_or m (j / 8) 0) (j % 8) (omega arith))

pub bit_at-take : (n : ℕ) (m : List ℕ) (j : ℕ) → j < 8 * n → bit_at (take n m) j ≡ bit_at m j
unfolding bit_at
bit_at-take n m j h = rw (get_or-take n m (j / 8) (omega arith))

pub bit_at-append_left :
    (xs ys : List ℕ) (j : ℕ) → j < 8 * length xs → bit_at (xs ++ ys) j ≡ bit_at xs j
unfolding bit_at
bit_at-append_left xs ys j h = rw (get_or-append_left xs ys (j / 8) (omega arith))

pub bit_at-append_zeros :
    (xs : List ℕ) (n j : ℕ) → 8 * length xs ≤ j → bit_at (xs ++ replicate n 0) j ≡ false
unfolding bit_at
bit_at-append_zeros xs n j h =
    rw
      (
        get_or-append_right xs (replicate n 0) (j / 8) (omega arith),
        get_or-replicate n (j / 8 - length xs),
      )
      (ground arith)

module _ ⦃aal : Aal⦄ where
  open aal use {clear_bit_lem, length-clear_bit, clear_bit}

  pub length-clear_loop :
      (m : List ℕ) (i n : ℕ) → i + n ≤ 8 * length m → length (clear_loop m i n) ≡ length m
  unfolding clear_loop
  length-clear_loop m i zero h = refl
  length-clear_loop m i (suc n) h = omega (
    arith,
    length-clear_bit m i (omega arith),
    length-clear_loop (clear_bit m i) (i + 1) n (omega (arith, length-clear_bit m i (omega arith))),
  )

  pub clear_loop_lem :
      (m : List ℕ) (i n j : ℕ)
      → i + n ≤ 8 * length m
      → bit_at (clear_loop m i n) j ≡ (if in_region i n j then false else bit_at m j)
  unfolding clear_loop in_region
  clear_loop_lem m i zero j h = ground arith
  clear_loop_lem m i (suc n) j h = ground (
    arith,
    length-clear_bit m i (omega arith),
    clear_bit_lem m i j (omega arith),
    clear_loop_lem (clear_bit m i) (i + 1) n j (omega (arith, length-clear_bit m i (omega arith))),
  )
