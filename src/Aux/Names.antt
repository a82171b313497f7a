-- ===== src/Aux/Names.antt =====
-- aux_pack_string and aux_unpack_string: up to eight characters of a name in a uint64_t, the first in
-- the highest byte. A C string is the list of its characters, with what lies behind a zero unread.
use reiser4progs.Prelude.{
  ℕ, zero, suc, ◌+◌, ◌-◌, ◌*◌, ◌/◌, ◌%◌, ◌^◌, ◌≤◌, ◌<◌, ◌≡◌, refl, ◌∙◌, ap, ap₂, false, List, [],
  ◌∷◌, ◌==◌, if◌then◌else◌, length, u64_mod, u8_mod, bit_or, bit_or_disjoint, arith,
}
use native.Mathlib.Nat.{pow-suc}

-- The loop, with `room` characters to go: the value, and the room left. Shifts drop what leaves the
-- 64 bits.
unfoldable pub pack_chars : ℕ → List ℕ → ℕ → ℕ × ℕ
pack_chars zero buff value = (value, 0)
pack_chars (suc room) [] value = (value, suc room)
pack_chars (suc room) (c ∷ buff) value =
    let next = pack_chars room buff (bit_or (value * 2 ^ 8 % u64_mod) (c % u8_mod)) in
    if c == 0 then (value, suc room) else next

-- (An empty string with `start` 0 makes the C code shift by 64.)
unfoldable pub pack_string : List ℕ → ℕ → ℕ
pack_string buff start =
    let (value, room) = pack_chars (8 - start) buff 0 in value * 2 ^ (room * 8) % u64_mod

-- The loop ends with its value, which eight shifts make zero.
unfoldable pub unpack_chars : ℕ → ℕ → List ℕ
unpack_chars zero value = []
unpack_chars (suc fuel) value =
    let c = value / 2 ^ 56 in
    let value' = value * 2 ^ 8 % u64_mod in
    let rest = unpack_chars fuel value' in
    let more = if value' == 0 then [] else rest in if c == 0 then more else c ∷ more

unfoldable pub unpack_string : ℕ → List ℕ
unpack_string value = unpack_chars 8 value

-- The characters of a name, up to the first zero.
abbrev pub AllChars : List ℕ → Type 0
AllChars [] = Unit
AllChars (c ∷ cs) = (0 < c) × (c < 256) × AllChars cs

mul-le : (a b c : ℕ) → a ≤ b → a * c ≤ b * c
mul-le a b c h = grind arith

pow_bytes_pos : (n : ℕ) → 0 < 256 ^ n
pow_bytes_pos zero = omega arith
pow_bytes_pos (suc n) = omega (arith, pow_bytes_pos n, pow-suc 256 n)

-- Characters at the top of `n` bytes.
unfoldable pub aligned : ℕ → List ℕ → ℕ
aligned zero cs = 0
aligned (suc n) [] = 0
aligned (suc n) (c ∷ cs) = c * 256 ^ n + aligned n cs

pub aligned-lt : (n : ℕ) (cs : List ℕ) → AllChars cs → aligned n cs < 256 ^ n
unfolding aligned
aligned-lt zero cs h = omega arith
aligned-lt (suc n) [] h = omega (arith, pow_bytes_pos n, pow-suc 256 n)
aligned-lt (suc n) (c ∷ cs) h =
    omega (arith, aligned-lt n cs h.2, pow-suc 256 n, mul-le c 255 (256 ^ n) (omega arith))

-- One byte more of room is a factor of 256, as long as the characters fit.
aligned-suc : (n : ℕ) (cs : List ℕ) → length cs ≤ n → aligned (suc n) cs ≡ 256 * aligned n cs
unfolding aligned
aligned-suc zero [] h = refl
aligned-suc zero (c ∷ cs) h = absurd (omega arith)
aligned-suc (suc n) [] h = refl
aligned-suc (suc n) (c ∷ cs) h =
    omega (arith, aligned-suc n cs (omega arith), ap (λ t. c * t) (pow-suc 256 n))

-- `value <<= 8; value |= c`, while the value has room.
char_joined :
    (value c room : ℕ)
    → 0 < c
    → c < 256
    → (value + 1) * 256 ^ suc room ≤ u64_mod
    → bit_or (value * 2 ^ 8 % u64_mod) (c % u8_mod) ≡ value * 256 + c
char_joined value c room pos small fits =
    ap₂ bit_or {x = value * 2 ^ 8 % u64_mod} {y = value * 2 ^ 8} {u = c % u8_mod} {v = c}
      (omega (arith, bound)) (omega arith)
    ∙ bit_or_disjoint 56 8 value c (omega (arith, bound)) small
  where
    bound : value * 256 + 256 ≤ u64_mod
    bound = omega (
      arith,
      ap (λ t. (value + 1) * t) (pow-suc 256 room),
      mul-le 1 (256 ^ room) ((value + 1) * 256) (pow_bytes_pos room),
    )

-- The loop of pack: what was read so far is shifted up by the room, and the rest is put below it.
pack_chars_lem :
    (room : ℕ) (cs : List ℕ) (value : ℕ)
    → AllChars cs
    → (value + 1) * 256 ^ room ≤ u64_mod
    → (pack_chars room cs value).0 * 256 ^ (pack_chars room cs value).1
      ≡ value * 256 ^ room + aligned room cs
unfolding pack_chars aligned
pack_chars_lem zero cs value all fits = omega arith
pack_chars_lem (suc room) [] value all fits = omega arith
pack_chars_lem (suc room) (c ∷ cs) value all fits =
    rw (not_end, char_joined value c room all.0 all.1 fits)
      (pack_chars_lem room cs (value * 256 + c) all.2 (
          omega (
            arith,
            ap (λ t. (value + 1) * t) (pow-suc 256 room),
            mul-le (value * 256 + c + 1) (value * 256 + 256) (256 ^ room) (omega arith),
          ))
        ∙ omega (arith, ap (λ t. value * t) (pow-suc 256 room)))
  where
    not_end : (c == 0) ≡ false
    not_end = ground (arith, all.0)

pow_bits : (n : ℕ) → 2 ^ (n * 8) ≡ 256 ^ n
pow_bits zero = refl
pow_bits (suc n) =
    ap (λ t. 2 ^ t) {x = suc n * 8} {y = suc (suc (suc (suc (suc (suc (suc (suc (n * 8))))))))}
      (omega arith)
    ∙ omega (arith, pow_bits n, pow-suc 256 n)

-- Packing puts the characters at the top of the word, behind `start` zero bytes.
pub pack_string-aligned :
    (cs : List ℕ) (start : ℕ)
    → AllChars cs
    → start ≤ 1
    → pack_string cs start ≡ aligned (8 - start) cs
unfolding pack_string
pack_string-aligned cs zero all h =
    rw (pow_bits (pack_chars 8 cs 0).1, pack_chars_lem 8 cs 0 all (omega arith))
      (omega (arith, aligned-lt 8 cs all))
pack_string-aligned cs (suc zero) all h =
    rw (pow_bits (pack_chars 7 cs 0).1, pack_chars_lem 7 cs 0 all (omega arith))
      (omega (arith, aligned-lt 7 cs all))
pack_string-aligned cs (suc (suc start)) all h = absurd (omega arith)

aligned-cons : (n c : ℕ) (cs : List ℕ) → aligned (suc n) (c ∷ cs) ≡ c * 256 ^ n + aligned n cs
unfolding aligned
aligned-cons n c cs = refl

pub aligned-nil : (n : ℕ) → aligned n [] ≡ 0
unfolding aligned
aligned-nil zero = refl
aligned-nil (suc n) = refl

unpack_nil : unpack_chars 8 0 ≡ []
unfolding unpack_chars
unpack_nil = refl

-- The first character, and what is left after the shift.
aligned_split :
    (c : ℕ) (cs : List ℕ)
    → AllChars (c ∷ cs)
    → length cs ≤ 7
    → (aligned 8 (c ∷ cs) / 2 ^ 56 ≡ c)
      × (aligned 8 (c ∷ cs) * 2 ^ 8 % u64_mod ≡ aligned 8 cs)
      × (0 < aligned 8 (c ∷ cs))
aligned_split c cs all h = omega (arith, parts, aligned-lt 7 cs all.2, aligned-suc 7 cs h)
  where
    parts : aligned 8 (c ∷ cs) ≡ c * 256 ^ 7 + aligned 7 cs
    parts = aligned-cons 7 c cs

-- One round of the loop of unpack.
unpack_round :
    (f value c value' : ℕ)
    → value / 2 ^ 56 ≡ c
    → value * 2 ^ 8 % u64_mod ≡ value'
    → unpack_chars (suc f) value ≡ (
        let more = if value' == 0 then [] else unpack_chars f value' in
        if c == 0 then more else c ∷ more)
unfolding unpack_chars
unpack_round f value c value' e e' = rw (← e, ← e')

unpack_chars_lem :
    (f c : ℕ) (cs : List ℕ)
    → AllChars (c ∷ cs)
    → length cs ≤ 7
    → length cs ≤ f
    → unpack_chars (suc f) (aligned 8 (c ∷ cs)) ≡ c ∷ cs
unpack_chars_lem f c [] all h hf =
    unpack_round f (aligned 8 (c ∷ [])) c 0 (aligned_split c [] all h).0
      ((aligned_split c [] all h).1 ∙ aligned-nil 8)
    ∙ ground (arith, all.0)
unpack_chars_lem zero c (d ∷ cs) all h hf = absurd (omega arith)
unpack_chars_lem (suc f) c (d ∷ cs) all h hf =
    unpack_round (suc f) (aligned 8 (c ∷ d ∷ cs)) c (aligned 8 (d ∷ cs))
      (aligned_split c (d ∷ cs) all h).0 (aligned_split c (d ∷ cs) all h).1
    ∙ ground (
      arith,
      all.0,
      (aligned_split d cs all.2 (omega arith)).2,
      unpack_chars_lem f d cs all.2 (omega arith) (omega arith),
    )

-- Behind a free byte the first round emits nothing.
unpack_aligned :
    (cs : List ℕ) (start : ℕ)
    → AllChars cs
    → start ≤ 1
    → length cs + start ≤ 8
    → unpack_chars 8 (aligned (8 - start) cs) ≡ cs
unpack_aligned [] zero all h fits = rw (aligned-nil 8) unpack_nil
unpack_aligned [] (suc zero) all h fits = rw (aligned-nil 7) unpack_nil
unpack_aligned (c ∷ cs) zero all h fits = unpack_chars_lem 7 c cs all (omega arith) (omega arith)
unpack_aligned (c ∷ cs) (suc zero) all h fits =
    unpack_round 7 (aligned 7 (c ∷ cs)) 0 (aligned 8 (c ∷ cs))
      (omega (arith, aligned-lt 7 (c ∷ cs) all))
      (omega (arith, aligned-lt 7 (c ∷ cs) all, aligned-suc 7 (c ∷ cs) (omega arith)))
    ∙ ground (
      arith,
      (aligned_split c cs all (omega arith)).2,
      unpack_chars_lem 6 c cs all (omega arith) (omega arith),
    )
unpack_aligned cs (suc (suc start)) all h fits = absurd (omega arith)

-- A name of non-zero characters, up to eight of them, or up to seven behind a byte kept free, is
-- what aux_unpack_string gives for the packed name. (For the empty name without the byte kept
-- free, where C leaves the shift open, its result is taken to be zero.)
pub unpack_string-pack_string :
    (cs : List ℕ) (start : ℕ)
    → AllChars cs
    → start ≤ 1
    → length cs + start ≤ 8
    → unpack_string (pack_string cs start) ≡ cs
unfolding unpack_string
unpack_string-pack_string cs start all h fits =
    rw (pack_string-aligned cs start all h) (unpack_aligned cs start all h fits)
