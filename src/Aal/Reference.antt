-- ===== src/Aal/Reference.antt =====
-- A bit array that satisfies the laws of `Aal`: the assumptions can be met. The tests run on it.
use reiser4progs.Prelude.{
  ℕ, zero, suc, ◌+◌, ◌-◌, ◌*◌, ◌/◌, ◌%◌, ◌^◌, ◌≤◌, ◌<◌, ◌≡◌, refl, ap, Bool, true, false, not, List,
  ltb, ◌==◌, if◌then◌else◌, ◌&&◌, length, length-set, get_or, set, u64_mod, arith, all_below,
  all_below_sound, min, [], ◌∷◌, Bool-cases, inl, inr, sym, ◌∙◌, ℕ_discrete,
}
use reiser4progs.Aal.{bit_of, bit_at, in_region, Finds, Run, Aal}

unfoldable pub same : Bool → Bool → Bool
same true b = b
same false b = not b

unfoldable pub with_bit : Bool → ℕ → ℕ → ℕ
with_bit v x k =
    let y = x % 256 in if same v (bit_of y k) then y else if v then y + 2 ^ k else y - 2 ^ k

unfoldable pub write_bit : Bool → List ℕ → ℕ → List ℕ
write_bit v m i = set m (i / 8) (with_bit v (get_or m (i / 8) 0) (i % 8))

with_bit_table :
    (v : Bool)
    → all_below 256 (λ x.
      all_below 8 (λ k.
        all_below 8 (λ j. same (bit_of (with_bit v x k) j) (if k == j then v else bit_of x j))))
      ≡ true
unfolding all_below with_bit same
with_bit_table true = refl
with_bit_table false = refl

-- A byte keeps its low eight bits through `% 256`.
bit_of-low : (x k : ℕ) → k < 8 → bit_of (x % 256) k ≡ bit_of x k
bit_of-low x zero h = ap (λ t. t == 1) (omega arith)
bit_of-low x (suc zero) h = ap (λ t. t == 1) (omega arith)
bit_of-low x (suc (suc zero)) h = ap (λ t. t == 1) (omega arith)
bit_of-low x (suc (suc (suc zero))) h = ap (λ t. t == 1) (omega arith)
bit_of-low x (suc (suc (suc (suc zero)))) h = ap (λ t. t == 1) (omega arith)
bit_of-low x (suc (suc (suc (suc (suc zero))))) h = ap (λ t. t == 1) (omega arith)
bit_of-low x (suc (suc (suc (suc (suc (suc zero)))))) h = ap (λ t. t == 1) (omega arith)
bit_of-low x (suc (suc (suc (suc (suc (suc (suc zero))))))) h = ap (λ t. t == 1) (omega arith)
bit_of-low x (suc (suc (suc (suc (suc (suc (suc (suc k)))))))) h = absurd (omega arith)

same-eq : (a b : Bool) → same a b ≡ true → a ≡ b
unfolding same
same-eq true true h = refl
same-eq true false h = cc
same-eq false true h = cc
same-eq false false h = refl

with_bit_low :
    (v : Bool) (x k j : ℕ)
    → x < 256
    → k < 8
    → j < 8
    → bit_of (with_bit v x k) j ≡ (if k == j then v else bit_of x j)
with_bit_low v x k j hx hk hj = same-eq _ _ (
    all_below_sound 8 _ j (all_below_sound 8 _ k (all_below_sound 256 _ x (with_bit_table v) hx) hk)
      hj)

with_bit_mod : (v : Bool) (x k : ℕ) → with_bit v x k ≡ with_bit v (x % 256) k
unfolding with_bit
with_bit_mod v x k =
    ap (λ y. if same v (bit_of y k) then y else if v then y + 2 ^ k else y - 2 ^ k) {x = x % 256}
      {y = x % 256 % 256} (omega arith)

with_bit_lem :
    (v : Bool) (x k j : ℕ)
    → k < 8
    → j < 8
    → bit_of (with_bit v x k) j ≡ (if k == j then v else bit_of x j)
with_bit_lem v x k j hk hj =
    rw (← bit_of-low x j hj)
      (rw (with_bit_mod v x k) (with_bit_low v (x % 256) k j (omega arith) hk hj))

get_or-set_eq :
    (xs : List ℕ) (i v : ℕ)
    → i < length xs
    → (j : ℕ) → get_or (set xs i v) j 0 ≡ (if i == j then v else get_or xs j 0)
get_or-set_eq [] i v h j = absurd (omega arith)
get_or-set_eq (x ∷ xs) zero v h zero = refl
get_or-set_eq (x ∷ xs) zero v h (suc j) = ground arith
get_or-set_eq (x ∷ xs) (suc i) v h zero = ground arith
get_or-set_eq (x ∷ xs) (suc i) v h (suc j) = ground (arith, get_or-set_eq xs i v (omega arith) j)

pub write_bit_lem :
    (v : Bool) (m : List ℕ) (i j : ℕ)
    → i < 8 * length m
    → bit_at (write_bit v m i) j ≡ (if i == j then v else bit_at m j)
unfolding write_bit bit_at
write_bit_lem v m i j h = elim (Bool-cases (i / 8 == j / 8)) [
  | inl e ↦
      rw
        (get_or-set_eq m (i / 8) (with_bit v (get_or m (i / 8) 0) (i % 8)) (omega arith) (j / 8), e)
        (with_bit_lem v (get_or m (i / 8) 0) (i % 8) (j % 8) (omega arith) (omega arith)
          ∙ ground arith)
  | inr e ↦
      rw
        (get_or-set_eq m (i / 8) (with_bit v (get_or m (i / 8) 0) (i % 8)) (omega arith) (j / 8), e)
        (ground arith)
]

pub length-write_bit : (v : Bool) (m : List ℕ) (i : ℕ) → length (write_bit v m i) ≡ length m
unfolding write_bit
length-write_bit v m i = length-set m (i / 8) _

unfoldable pub write_bits : Bool → List ℕ → ℕ → ℕ → List ℕ
write_bits v m s zero = m
write_bits v m s (suc c) = write_bits v (write_bit v m s) (s + 1) c

pub length-write_bits : (v : Bool) (m : List ℕ) (s c : ℕ) → length (write_bits v m s c) ≡ length m
unfolding write_bits
length-write_bits v m s zero = refl
length-write_bits v m s (suc c) =
    length-write_bits v (write_bit v m s) (s + 1) c ∙ length-write_bit v m s

pub write_bits_lem :
    (v : Bool) (m : List ℕ) (s c j : ℕ)
    → s + c ≤ 8 * length m
    → bit_at (write_bits v m s c) j ≡ (if in_region s c j then v else bit_at m j)
unfolding write_bits in_region
write_bits_lem v m s zero j h = ground arith
write_bits_lem v m s (suc c) j h = ground (
  arith,
  write_bits_lem v (write_bit v m s) (s + 1) c j,
  length-write_bit v m s,
  write_bit_lem v m s j,
)

-- The first bit of the value `v` among the next `n`.
unfoldable pub find_bit : Bool → List ℕ → ℕ → ℕ → ℕ
find_bit v m s zero = s
find_bit v m s (suc n) = elim (same v (bit_at m s)) [ true ↦ s | false ↦ find_bit v m (s + 1) n ]

same-not : (a b : Bool) → same a b ≡ false → b ≡ not a
unfolding same
same-not true true h = cc
same-not true false h = refl
same-not false true h = refl
same-not false false h = cc

find_bit-Finds :
    (v : Bool) (m : List ℕ) (total s n : ℕ) → s + n ≡ total → Finds v m total s (find_bit v m s n)
unfolding find_bit
find_bit-Finds v m total s zero e = record {
  from = omega arith;
  hit = λ h. absurd (omega arith);
  first = λ j a b c. absurd (omega arith);
}
find_bit-Finds v m total s (suc n) e = elim (Bool-cases (same v (bit_at m s))) [
  | inl t ↦
      rw (t, find_bit)
        (record {
          from = omega arith;
          hit = λ h. sym (same-eq v (bit_at m s) t);
          first = λ j a b c. absurd (omega arith);
        })
  | inr f ↦ rw (f, find_bit) (later f (find_bit-Finds v m total (s + 1) n (omega arith)))
]
  where
    later : {r : ℕ} → same v (bit_at m s) ≡ false → Finds v m total (s + 1) r → Finds v m total s r
    later f found = record {
      from = omega (arith, found.from);
      hit = found.hit;
      first = λ j a b c. elim (ℕ_discrete s j) [
        | yes e ↦ rw (← e) (same-not v (bit_at m s) f)
        | no ne ↦ found.first j (omega arith) b c
      ];
    }

unfoldable pub find_next : Bool → List ℕ → ℕ → ℕ → ℕ
find_next v m total s = find_bit v m s (total - s)

pub find_next-Finds :
    (v : Bool) (m : List ℕ) (total s : ℕ) → s < total → Finds v m total s (find_next v m total s)
unfolding find_next
find_next-Finds v m total s h = find_bit-Finds v m total s (total - s) (omega arith)

-- From the first bit of the value on, as long as it lasts; nothing where there is none.
unfoldable pub find_run : Bool → List ℕ → ℕ → ℕ → ℕ → ℕ × ℕ
find_run v m total start count =
    let s = find_next v m total start in
    if ltb start total && ltb s total
    then (min count (min total (find_next (not v) m total s) - s), s)
    else (0, start)

not-not : (v : Bool) → not (not v) ≡ v
not-not true = refl
not-not false = refl

pub find_run-Run :
    (v : Bool) (m : List ℕ) (total start count : ℕ)
    → let (n, s) = find_run v m total start count in Run v m total count n s
unfolding find_run
find_run-Run v m total start count = elim (Bool-cases (ltb start total && ltb s total)) [
  | inl t ↦ rw t (record {
    fits = omega arith;
    inside = λ h. omega arith;
    same = λ j a b. (found t).first j a (omega arith) (omega arith) ∙ not-not v;
  })
  | inr f ↦ rw f (record {
    fits = omega arith;
    inside = λ h. absurd (omega arith);
    same = λ j a b. absurd (omega arith);
  })
]
  where
    s : ℕ
    s = find_next v m total start

    found :
        (ltb start total && ltb s total) ≡ true
        → Finds (not v) m total s (find_next (not v) m total s)
    found t = find_next-Finds (not v) m total s (ground arith)

instance abbrev pub reference : Aal
reference = record {
  inval_blk = u64_mod - 1;
  test_bit = bit_at;
  set_bit = write_bit true;
  clear_bit = write_bit false;
  set_bits = write_bits true;
  clear_bits = write_bits false;
  find_next_zero_bit = find_next false;
  find_next_set_bit = find_next true;
  find_zero_bits = find_run false;
  find_set_bits = find_run true;
  inval_blk_lem = refl;
  test_bit_lem = λ m i h. refl;
  set_bit_lem = write_bit_lem true;
  clear_bit_lem = write_bit_lem false;
  set_bits_lem = write_bits_lem true;
  clear_bits_lem = write_bits_lem false;
  length-set_bit = λ m i h. length-write_bit true m i;
  length-clear_bit = λ m i h. length-write_bit false m i;
  length-set_bits = λ m s c h. length-write_bits true m s c;
  length-clear_bits = λ m s c h. length-write_bits false m s c;
  find_next_zero_bit_lem = λ m total s h lt. find_next-Finds false m total s lt;
  find_next_set_bit_lem = λ m total s h lt. find_next-Finds true m total s lt;
  find_zero_bits_lem = λ m total s c h. find_run-Run false m total s c;
  find_set_bits_lem = λ m total s c h. find_run-Run true m total s c;
}

-- Everything that a run on the reference arrays opens.
unfoldable pub opened : Unit {0}
unfolding write_bit write_bits find_bit find_next find_run with_bit same bit_at in_region
opened = tt
