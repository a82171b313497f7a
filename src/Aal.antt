-- ===== src/Aal.antt =====
-- What bitmap.c and alloc40.c take from libaal, which is not in the repository: the bit arrays of
-- aal/bitops, and the value that stands for "no block". An array is the list of its bytes; bit i is
-- bit i % 8 of byte i / 8. The laws state the documented behaviour, inside the array only.
pub mod Reference
pub mod Stream
pub mod Device
use reiser4progs.Prelude.{
  ℕ, ◌+◌, ◌-◌, ◌*◌, ◌/◌, ◌%◌, ◌^◌, ◌≤◌, ◌<◌, ◌≡◌, Bool, true, false, not, List, ltb, leb, ◌==◌,
  if◌then◌else◌, ◌&&◌, length, get_or, u64_mod,
}

abbrev pub bit_of : ℕ → ℕ → Bool
bit_of x k = x / 2 ^ k % 2 == 1

unfoldable pub bit_at : List ℕ → ℕ → Bool
bit_at m i = bit_of (get_or m (i / 8) 0) (i % 8)

-- Is `i` one of the `count` numbers from `start` on?
unfoldable pub in_region : ℕ → ℕ → ℕ → Bool
in_region start count i = leb start i && ltb i (start + count)

-- `r` is where a search from `start` for the value `v` ends: at the first such bit, or not
-- below `total`.
pub record Finds (v : Bool) (m : List ℕ) (total start r : ℕ) : Type 0 where
  pub from : start ≤ r
  pub hit : r < total → bit_at m r ≡ v
  pub first : (j : ℕ) → start ≤ j → j < r → j < total → bit_at m j ≡ not v

-- A run of `n` bits of the value `v` at `s`, of at most `count`; an empty one says nothing of `s`.
pub record Run (v : Bool) (m : List ℕ) (total count n s : ℕ) : Type 0 where
  pub fits : n ≤ count
  pub inside : 0 < n → s + n ≤ total
  pub same : (j : ℕ) → s ≤ j → j < s + n → bit_at m j ≡ v

pub record Aal : Type 0 where
  -- INVAL_BLK
  pub inval_blk : ℕ
  pub test_bit : List ℕ → ℕ → Bool
  pub set_bit : List ℕ → ℕ → List ℕ
  pub clear_bit : List ℕ → ℕ → List ℕ
  pub set_bits : List ℕ → ℕ → ℕ → List ℕ
  pub clear_bits : List ℕ → ℕ → ℕ → List ℕ
  -- (map, total, start)
  pub find_next_zero_bit : List ℕ → ℕ → ℕ → ℕ
  pub find_next_set_bit : List ℕ → ℕ → ℕ → ℕ
  -- (map, total, start, count), with the length found and the new value of `*start`
  pub find_zero_bits : List ℕ → ℕ → ℕ → ℕ → ℕ × ℕ
  pub find_set_bits : List ℕ → ℕ → ℕ → ℕ → ℕ × ℕ
  pub inval_blk_lem : inval_blk ≡ u64_mod - 1
  pub test_bit_lem : (m : List ℕ) (i : ℕ) → i < 8 * length m → test_bit m i ≡ bit_at m i
  pub set_bit_lem :
      (m : List ℕ) (i j : ℕ)
      → i < 8 * length m
      → bit_at (set_bit m i) j ≡ (if i == j then true else bit_at m j)
  pub clear_bit_lem :
      (m : List ℕ) (i j : ℕ)
      → i < 8 * length m
      → bit_at (clear_bit m i) j ≡ (if i == j then false else bit_at m j)
  pub set_bits_lem :
      (m : List ℕ) (s c j : ℕ)
      → s + c ≤ 8 * length m
      → bit_at (set_bits m s c) j ≡ (if in_region s c j then true else bit_at m j)
  pub clear_bits_lem :
      (m : List ℕ) (s c j : ℕ)
      → s + c ≤ 8 * length m
      → bit_at (clear_bits m s c) j ≡ (if in_region s c j then false else bit_at m j)
  pub length-set_bit : (m : List ℕ) (i : ℕ) → i < 8 * length m → length (set_bit m i) ≡ length m
  pub length-clear_bit : (m : List ℕ) (i : ℕ) → i < 8 * length m → length (clear_bit m i) ≡ length m
  pub length-set_bits :
      (m : List ℕ) (s c : ℕ) → s + c ≤ 8 * length m → length (set_bits m s c) ≡ length m
  pub length-clear_bits :
      (m : List ℕ) (s c : ℕ) → s + c ≤ 8 * length m → length (clear_bits m s c) ≡ length m
  pub find_next_zero_bit_lem :
      (m : List ℕ) (total start : ℕ)
      → total ≤ 8 * length m
      → start < total
      → Finds false m total start (find_next_zero_bit m total start)
  pub find_next_set_bit_lem :
      (m : List ℕ) (total start : ℕ)
      → total ≤ 8 * length m
      → start < total
      → Finds true m total start (find_next_set_bit m total start)
  pub find_zero_bits_lem :
      (m : List ℕ) (total start count : ℕ)
      → total ≤ 8 * length m
      → let (n, s) = find_zero_bits m total start count in Run false m total count n s
  pub find_set_bits_lem :
      (m : List ℕ) (total start count : ℕ)
      → total ≤ 8 * length m
      → let (n, s) = find_set_bits m total start count in Run true m total count n s
