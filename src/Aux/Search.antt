-- ===== src/Aux/Search.antt =====
-- aux_bin_search. The variables `left`, `right` and `i` are of the type int: their sums are taken modulo
-- 2 ^ 32 and read as signed numbers. A `none` means that the
-- fuel ran out. The search window shrinks in every round, so `count` rounds and the last test are
-- enough.
use reiser4progs.Prelude.{
  ℕ, zero, suc, Option, none, some, ◌+◌, ◌-◌, ◌/◌, ◌≤◌, ◌<◌, ◌≡◌, refl, sym, subst, Bool, true,
  false, inl, inr, ltb, leb, ltb→lt, u32_mod, ◌%◌, ◌==◌, if◌then◌else◌, arith, Bool-cases,
}

-- What a comparison returns: -1, 0 or 1, for the element against the needle.
pub data Comparison : Type 0 where
  less equal greater : Comparison

-- The test `a <= b` of two numbers of the type int, and the half of one, rounded towards 0.
unfoldable pub le_int : ℕ → ℕ → Bool
le_int a b = leb ((a + 2147483648) % u32_mod) ((b + 2147483648) % u32_mod)

unfoldable pub half_int : ℕ → ℕ
half_int a = if ltb a 2147483648 then a / 2 else (u32_mod - (u32_mod - a) / 2) % u32_mod

unfoldable pub search_loop : (ℕ → Comparison) → ℕ → ℕ → ℕ → Option (Bool × ℕ)
search_loop comp zero left right = none
search_loop comp (suc fuel) left right =
    let i = half_int ((right + left) % u32_mod) in
    let upper = search_loop comp fuel ((i + 1) % u32_mod) right in
    let lower = search_loop comp fuel left ((i + u32_mod - 1) % u32_mod) in
    if le_int left right
    then elim (comp i) [ less ↦ upper | greater ↦ lower | equal ↦ some (true, i) ]
    else some (false, left)

-- The return value, and `*pos`. The comparison is the callback at the needle and an index.
unfoldable pub bin_search : (ℕ → Comparison) → ℕ → Option (Bool × ℕ)
bin_search comp count =
    if count == 0
    then some (false, 0)
    else search_loop comp (count + 1) 0 ((count + u32_mod - 1) % u32_mod)

-- The elements are in order: what comes before a smaller one is smaller, behind a greater one
-- greater.
pub record IsOrdered (comp : ℕ → Comparison) (count : ℕ) : Type 0 where
  pub down : (i j : ℕ) → i ≤ j → j < count → comp j ≡ less → comp i ≡ less
  pub up : (i j : ℕ) → i ≤ j → j < count → comp i ≡ greater → comp j ≡ greater

-- The search ends. A hit is an equal element. A miss gives the place of the needle: behind all smaller elements, in
-- front of all greater ones.
abbrev pub Located : (ℕ → Comparison) → ℕ → Option (Bool × ℕ) → Type 0
Located comp count none = ⊥
Located comp count (some (true, pos)) = (pos < count) × (comp pos ≡ equal)
Located comp count (some (false, pos)) =
    (pos ≤ count)
    × ((i : ℕ) → i < pos → comp i ≡ less)
    × ((i : ℕ) → pos ≤ i → i < count → comp i ≡ greater)

-- The three ways to go on from a probe.
probe-Located :
    (comp : ℕ → Comparison) (count i : ℕ) (upper lower : Option (Bool × ℕ)) (r : Comparison)
    → comp i ≡ r
    → i < count
    → (comp i ≡ less → Located comp count upper)
    → (comp i ≡ greater → Located comp count lower)
    → Located comp count (elim r [ less ↦ upper | greater ↦ lower | equal ↦ some (true, i) ])
probe-Located comp count i upper lower less e h on_less on_greater = on_less e
probe-Located comp count i upper lower equal e h on_less on_greater = (h, e)
probe-Located comp count i upper lower greater e h on_less on_greater = on_greater e

-- Up to 2 ^ 30 elements, with `right` as the number before `end`, the numbers of the type int are those of
-- the window from `left` to `end`.
window_test :
    (left end : ℕ)
    → left ≤ end
    → end ≤ 1073741824
    → le_int left ((end + u32_mod - 1) % u32_mod) ≡ ltb left end
unfolding le_int
window_test left end le small = ground arith

window_middle :
    (left end : ℕ)
    → left < end
    → end ≤ 1073741824
    → half_int (((end + u32_mod - 1) % u32_mod + left) % u32_mod) ≡ (end - 1 + left) / 2
unfolding half_int
window_middle left end lt small = ground arith

module _ (comp : ℕ → Comparison) (count : ℕ) (ordered : IsOrdered comp count)
    (small : count ≤ 1073741824) where
  search_loop-Located :
      (fuel left end : ℕ)
      → end - left < fuel
      → left ≤ end
      → end ≤ count
      → ((i : ℕ) → i < left → comp i ≡ less)
      → ((i : ℕ) → end ≤ i → i < count → comp i ≡ greater)
      → Located comp count (search_loop comp fuel left ((end + u32_mod - 1) % u32_mod))
  unfolding search_loop
  search_loop-Located zero left end f le top below above = absurd (omega arith)
  search_loop-Located (suc fuel) left end f le top below above = elim (Bool-cases (ltb left end)) [
    | inr done ↦
        rw (window_test left end le (omega arith), done)
          (ground arith, below, λ i a b. above i (ground arith) b)
    | inl more ↦
        let inside : left < end = ltb→lt left end more in
        let i = (end - 1 + left) / 2 in
        let right = (end + u32_mod - 1) % u32_mod in
        let next : i + 1 ≡ (i + 1) % u32_mod = omega arith in
        rw (window_test left end le (omega arith), more)
          (subst
            (λ m. Located comp count (elim (comp m) [
              | less ↦ search_loop comp fuel ((m + 1) % u32_mod) right
              | greater ↦ search_loop comp fuel left ((m + u32_mod - 1) % u32_mod)
              | equal ↦ some (true, m)
            ]))
            (sym (window_middle left end inside (omega arith)))
            (probe-Located comp count i _ _ (comp i) refl (omega arith)
              (λ less_i.
                subst (λ k. Located comp count (search_loop comp fuel k right)) next
                  (search_loop-Located fuel (i + 1) end (omega arith) (omega arith) top
                    (λ j h. ordered.down j i (omega arith) (omega arith) less_i) above))
              (λ greater_i.
                search_loop-Located fuel left i (omega arith) (omega arith) (omega arith) below
                  (λ j a b. ordered.up i j a b greater_i))))
  ]

  -- On at most 2 ^ 30 ordered elements, for which the numbers of the type int do not overflow,
  -- the search ends, and either hits an equal element, or misses with a place such that all
  -- elements before it are smaller than the needle and all from it on are greater.
  pub bin_search-Located : Located comp count (bin_search comp count)
  unfolding bin_search
  bin_search-Located = elim (Bool-cases (count == 0)) [
    | inl empty ↦
        rw empty (omega arith, λ i h. absurd (omega arith), λ i a b. absurd (ground arith))
    | inr filled ↦ rw filled (
        search_loop-Located (count + 1) 0 count (omega arith) (omega arith) (omega arith)
          (λ i h. absurd (omega arith)) (λ i a b. absurd (omega arith)))
  ]
