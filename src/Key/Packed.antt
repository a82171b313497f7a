-- ===== src/Key/Packed.antt =====
-- aux_pack_string as the keys use it: a name is packed in slices, one for each element.
use mathlib.Core.List.{append_assoc}
use reiser4progs.Prelude.{
  ℕ, zero, suc, ◌+◌, ◌-◌, ◌*◌, ◌%◌, ◌^◌, ◌≤◌, ◌<◌, ◌≡◌, refl, ◌∙◌, sym, ap, Bool, true, List, [],
  ◌∷◌, ◌++◌, length, leb, get_or, ◌&&◌, length-take, take, drop, take-append-drop, ◌==◌,
  if◌then◌else◌, Bool-cases, inl, inr, bit_or, bit_and, bit_and-zero, bit_or_split, bit_or-zero,
  bit_and_split, u64_mod, u8_mod, arith,
}
use reiser4progs.Aux.Names.{
  AllChars, aligned, aligned-lt, aligned-nil, pack_chars, pack_string, pack_string-aligned,
  unpack_string, unpack_string-pack_string,
}
use reiser4progs.Key.Words.{bit_and_low, bit_or_join}

pack_chars-take :
    (room : ℕ) (cs : List ℕ) (value : ℕ)
    → pack_chars room cs value ≡ pack_chars room (take room cs) value
unfolding pack_chars
pack_chars-take zero cs value = refl
pack_chars-take (suc room) [] value = refl
pack_chars-take (suc room) (c ∷ cs) value =
    ground (arith, pack_chars-take room cs (bit_or (value * 2 ^ 8 % u64_mod) (c % u8_mod)))

pack_string-take :
    (cs : List ℕ) (start : ℕ) → pack_string cs start ≡ pack_string (take (8 - start) cs) start
unfolding pack_string
pack_string-take cs start =
    ap (λ p. p.0 * 2 ^ (p.1 * 8) % u64_mod) (pack_chars-take (8 - start) cs 0)

pub take-AllChars : (n : ℕ) (cs : List ℕ) → AllChars cs → AllChars (take n cs)
take-AllChars zero cs all = tt
take-AllChars (suc n) [] all = tt
take-AllChars (suc n) (c ∷ cs) all = (all.0, all.1, take-AllChars n cs all.2)

pub drop-AllChars : (n : ℕ) (cs : List ℕ) → AllChars cs → AllChars (drop n cs)
drop-AllChars zero cs all = all
drop-AllChars (suc n) [] all = tt
drop-AllChars (suc n) (c ∷ cs) all = drop-AllChars n cs all.2

-- A packed name gives back as many characters as its word has room for.
pub unpack_string-slice :
    (cs : List ℕ) (start : ℕ)
    → AllChars cs
    → start ≤ 1
    → unpack_string (pack_string cs start) ≡ take (8 - start) cs
unpack_string-slice cs start all h =
    ap unpack_string (pack_string-take cs start)
    ∙ unpack_string-pack_string (take (8 - start) cs) start (take-AllChars (8 - start) cs all) h
        (omega (arith, length-take (8 - start) cs))

pub pack_string-nil : pack_string [] 0 ≡ 0
pack_string-nil = pack_string-aligned [] 0 tt (omega arith) ∙ aligned-nil 8

pub pack_string_first-lt : (cs : List ℕ) → AllChars cs → pack_string cs 1 < 2 ^ 56
pack_string_first-lt cs all =
    omega (arith, pack_string-aligned cs 1 all (omega arith), aligned-lt 7 cs all)

pub pack_string-lt : (cs : List ℕ) → AllChars cs → pack_string cs 0 < u64_mod
pack_string-lt cs all =
    omega (arith, pack_string-aligned cs 0 all (omega arith), aligned-lt 8 cs all)

pub pack_string-pos : (cs : List ℕ) → AllChars cs → 0 < length cs → 0 < pack_string cs 1
unfolding aligned
pack_string-pos [] all h = absurd (omega arith)
pack_string-pos (c ∷ cs) all h = omega (arith, pack_string-aligned (c ∷ cs) 1 all (omega arith))

pub drop-nil : (n : ℕ) (cs : List ℕ) → length cs ≤ n → drop n cs ≡ []
drop-nil zero [] h = refl
drop-nil zero (c ∷ cs) h = absurd (omega arith)
drop-nil (suc n) [] h = refl
drop-nil (suc n) (c ∷ cs) h = drop-nil n cs (omega arith)

pub take_all : (n : ℕ) (cs : List ℕ) → length cs ≤ n → take n cs ≡ cs
take_all zero [] h = refl
take_all zero (c ∷ cs) h = absurd (omega arith)
take_all (suc n) [] h = refl
take_all (suc n) (c ∷ cs) h = ap (λ t. c ∷ t) (take_all n cs (omega arith))

pub take-drop_slices : (cs : List ℕ) → take 7 cs ++ take 8 (drop 7 cs) ++ drop 15 cs ≡ cs
take-drop_slices cs =
    append_assoc (take 7 cs) (take 8 (drop 7 cs)) (drop 15 cs)
    ∙ ap (λ t. take 7 cs ++ t)
        (ap (λ t. take 8 (drop 7 cs) ++ t) (drop_twice 7 8 cs) ∙ take-append-drop 8 (drop 7 cs))
    ∙ take-append-drop 7 cs
  where
    drop_twice : (n k : ℕ) (xs : List ℕ) → drop (n + k) xs ≡ drop k (drop n xs)
    drop_twice zero k xs = ap (λ t. drop t xs) (omega arith)
    drop_twice (suc n) k [] =
        drop-nil (suc n + k) [] (omega arith) ∙ sym (drop-nil k [] (omega arith))
    drop_twice (suc n) k (x ∷ xs) =
        ap (λ t. drop t (x ∷ xs)) {y = suc (n + k)} (omega arith) ∙ drop_twice n k xs

-- The top byte of an ordering: `fibre` in seven bits, then the bit of hashed names.
pub bit_and-hashed_bit :
    (fibre b p : ℕ)
    → fibre < 128
    → b < 2
    → p < 2 ^ 56
    → bit_and ((fibre * 2 + b) * 2 ^ 56 + p) 0x0100000000000000 ≡ b * 2 ^ 56
bit_and-hashed_bit fibre b p hf hb hp = omega (
  arith,
  bit_and_split 56 (fibre * 2 + b) 1 p 0 hp (omega arith),
  bit_and_low 7 1 fibre b hf hb,
  bit_and-zero 56 p hp,
)

pub bit_and-name_bits :
    (fibre b p : ℕ)
    → fibre < 128
    → b < 2
    → p < 2 ^ 56
    → bit_and ((fibre * 2 + b) * 2 ^ 56 + p) 0x00ffffffffffffff ≡ p
bit_and-name_bits fibre b p hf hb hp = bit_and_low 8 56 (fibre * 2 + b) p (omega arith) hp

pub bit_or-hashed_bit : (p : ℕ) → p < 2 ^ 56 → bit_or p 0x0100000000000000 ≡ 2 ^ 56 + p
bit_or-hashed_bit p hp = omega (arith, bit_or_join 56 1 p hp)

pub bit_or-fibre_bits :
    (fibre b p : ℕ)
    → b < 2
    → p < 2 ^ 56
    → bit_or (b * 2 ^ 56 + p) (fibre % u8_mod * 2 ^ 57 % u64_mod)
      ≡ (fibre % 128 * 2 + b) * 2 ^ 56 + p
bit_or-fibre_bits fibre b p hb hp = omega (
  arith,
  bit_or_split 56 b (fibre % 128 * 2) p 0 hp (omega arith),
  ap (bit_or (b * 2 ^ 56 + p)) {x = fibre % u8_mod * 2 ^ 57 % u64_mod}
      {y = fibre % 128 * 2 * 2 ^ 56 + 0} (omega arith),
  bit_or_join 1 (fibre % 128) b hb,
  bit_or-zero 56 p hp,
)

-- Is it the entry of the directory itself?
abbrev pub dot : List ℕ → Bool
dot name = length name == 1 && get_or name 0 0 == b'.'

pub dot_name : (name : List ℕ) → dot name ≡ true → name ≡ b'.' ∷ []
dot_name [] h = cc
dot_name (c ∷ []) h = ap (λ t. t ∷ []) (ground arith)
dot_name (c ∷ d ∷ cs) h = ground arith

-- Is the name longer than `limit`?
abbrev pub long : ℕ → List ℕ → ℕ
long limit name = if leb (length name) limit then 0 else 1

pub long-le : (limit : ℕ) (name : List ℕ) → long limit name ≤ 1
long-le limit name = ground arith

-- The first word of a name: its first seven characters, the bit of a hashed name, the fibre.
pub packed_head :
    (limit fibre : ℕ) (name : List ℕ)
    → AllChars name
    → bit_or
        (if leb (length name) limit
          then pack_string name 1
          else bit_or (pack_string name 1) 0x0100000000000000)
        (fibre % u8_mod * 2 ^ 57 % u64_mod)
      ≡ (fibre % 128 * 2 + long limit name) * 2 ^ 56 + pack_string name 1
packed_head limit fibre name all = elim (Bool-cases (leb (length name) limit)) [
  | inl e ↦ rw e (
      ap (λ t. bit_or t (fibre % u8_mod * 2 ^ 57 % u64_mod)) {x = pack_string name 1}
        {y = 0 * 2 ^ 56 + pack_string name 1} (omega arith)
      ∙ bit_or-fibre_bits fibre 0 (pack_string name 1) (omega arith)
          (pack_string_first-lt name all))
  | inr e ↦ rw e (
      ap (λ t. bit_or t (fibre % u8_mod * 2 ^ 57 % u64_mod))
        {x = bit_or (pack_string name 1) 0x0100000000000000} {y = 1 * 2 ^ 56 + pack_string name 1}
        (omega (arith, bit_or-hashed_bit (pack_string name 1) (pack_string_first-lt name all)))
      ∙ bit_or-fibre_bits fibre 1 (pack_string name 1) (omega arith)
          (pack_string_first-lt name all))
]
