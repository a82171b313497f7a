-- ===== src/Aux/Adler.antt =====
-- aux_adler32: two uint32_t sums over the bytes, reduced modulo 65521 once every 5552 bytes; and the
-- Adler checksum as it is defined, with a reduction at every byte.
use reiser4progs.Prelude.{
  ℕ, zero, suc, ◌+◌, ◌*◌, ◌/◌, ◌%◌, ◌^◌, ◌≤◌, ◌<◌, ◌≡◌, refl, ◌∙◌, sym, ap, List, [], ◌∷◌, ◌++◌,
  ltb, lt→ltb, ◌==◌, if◌then◌else◌, length, length-drop, length-take, take, drop, take-append-drop,
  u32_mod, bit_or, bit_or_disjoint, arith,
}

abbrev pub adler_base : ℕ
adler_base = 65521

abbrev pub adler_nmax : ℕ
adler_nmax = 5552

-- The inner loop, over the bytes of one chunk.
unfoldable pub adler_chunk : List ℕ → ℕ → ℕ → ℕ × ℕ
adler_chunk [] s1 s2 = (s1, s2)
adler_chunk (c ∷ cs) s1 s2 =
    let s1' = (s1 + c % 256) % u32_mod in adler_chunk cs s1' ((s2 + s1') % u32_mod)

-- The outer loop; each round takes a chunk, so the number of bytes is enough fuel.
unfoldable pub adler_loop : ℕ → List ℕ → ℕ → ℕ → ℕ × ℕ
adler_loop zero buff s1 s2 = (s1, s2)
adler_loop (suc fuel) buff s1 s2 =
    let k = if ltb (length buff) adler_nmax then length buff else adler_nmax in
    let (t1, t2) = adler_chunk (take k buff) s1 s2 in
    let rest = adler_loop fuel (drop k buff) (t1 % adler_base) (t2 % adler_base) in
    if ltb 0 (length buff) then rest else (s1, s2)

unfoldable pub adler32 : ℕ → List ℕ → ℕ
adler32 adler buff =
    let a = if adler == 0 then 1 else adler in
    let (s1, s2) = adler_loop (length buff) buff (a % 2 ^ 16) (a / 2 ^ 16) in
    bit_or (s2 * 2 ^ 16 % u32_mod) s1

-- The checksum as it is defined: both sums modulo 65521 at every byte.
unfoldable pub adler_sums : List ℕ → ℕ → ℕ → ℕ × ℕ
adler_sums [] s1 s2 = (s1, s2)
adler_sums (c ∷ cs) s1 s2 =
    let s1' = (s1 + c % 256) % adler_base in adler_sums cs s1' ((s2 + s1') % adler_base)

triangle : ℕ → ℕ
triangle zero = 0
triangle (suc k) = triangle k + suc k

-- One byte more: neither sum reaches 2 ^ 32, and there is room for the rest.
byte_fits :
    (n t s1 s2 d : ℕ)
    → d ≤ 255
    → s1 + 255 * suc n < u32_mod
    → s2 + suc n * s1 + 255 * (t + suc n) < u32_mod
    → (s1 + d + 255 * n < u32_mod)
      × (s2 + (s1 + d) < u32_mod)
      × (s2 + (s1 + d) + n * (s1 + d) + 255 * t < u32_mod)
byte_fits n t s1 s2 d h h1 h2 =
    let step : n * d ≤ n * 255 = grind arith in (omega arith, omega arith, omega arith)

-- While the largest possible sums stay below 2 ^ 32, a chunk has the residues of the definition.
chunk-sums :
    (cs : List ℕ) (s1 s2 r1 r2 : ℕ)
    → s1 + 255 * length cs < u32_mod
    → s2 + length cs * s1 + 255 * triangle (length cs) < u32_mod
    → s1 % adler_base ≡ r1 % adler_base
    → s2 % adler_base ≡ r2 % adler_base
    → ((adler_chunk cs s1 s2).0 % adler_base ≡ (adler_sums cs r1 r2).0 % adler_base)
      × ((adler_chunk cs s1 s2).1 % adler_base ≡ (adler_sums cs r1 r2).1 % adler_base)
unfolding adler_chunk adler_sums triangle
chunk-sums [] s1 s2 r1 r2 h1 h2 e1 e2 = (e1, e2)
chunk-sums (c ∷ cs) s1 s2 r1 r2 h1 h2 e1 e2 =
    chunk-sums cs ((s1 + c % 256) % u32_mod) ((s2 + (s1 + c % 256) % u32_mod) % u32_mod)
      ((r1 + c % 256) % adler_base) ((r2 + (r1 + c % 256) % adler_base) % adler_base)
      (omega (arith, fits)) (omega (arith, fits, ap (λ (t : ℕ). length cs * t) exact1))
      (omega (arith, fits)) (omega (arith, fits))
  where
    fits :
        (s1 + c % 256 + 255 * length cs < u32_mod)
        × (s2 + (s1 + c % 256) < u32_mod)
        × (s2 + (s1 + c % 256) + length cs * (s1 + c % 256) + 255 * triangle (length cs) < u32_mod)
    fits = byte_fits (length cs) (triangle (length cs)) s1 s2 (c % 256) (omega arith) h1 h2

    exact1 : (s1 + c % 256) % u32_mod ≡ s1 + c % 256
    exact1 = omega (arith, fits)

empty_sums : (s1 s2 : ℕ) → ◌≡◌ {A = ℕ × ℕ} (s1, s2) (adler_sums [] s1 s2)
unfolding adler_sums
empty_sums s1 s2 = refl

sums-append :
    (xs ys : List ℕ) (a b : ℕ)
    → adler_sums (xs ++ ys) a b ≡ adler_sums ys (adler_sums xs a b).0 (adler_sums xs a b).1
unfolding adler_sums
sums-append [] ys a b = refl
sums-append (x ∷ xs) ys a b =
    sums-append xs ys ((a + x % 256) % adler_base) ((b + (a + x % 256) % adler_base) % adler_base)

sums-lt :
    (cs : List ℕ) (a b : ℕ)
    → a < adler_base
    → b < adler_base
    → ((adler_sums cs a b).0 < adler_base) × ((adler_sums cs a b).1 < adler_base)
unfolding adler_sums
sums-lt [] a b ha hb = (ha, hb)
sums-lt (c ∷ cs) a b ha hb = sums-lt cs _ _ (omega arith) (omega arith)

triangle_mono : (m n : ℕ) → m ≤ n → triangle m ≤ triangle n
unfolding triangle
triangle_mono zero n h = omega arith
triangle_mono (suc m) zero h = absurd (omega arith)
triangle_mono (suc m) (suc n) h = omega (arith, triangle_mono m n (omega arith))

triangle_5552 : triangle 5552 ≡ 15415128
unfolding triangle
triangle_5552 = refl

-- A chunk of at most 5552 bytes keeps the sums below 2 ^ 32.
chunk_fits :
    (k s1 s2 : ℕ)
    → k ≤ adler_nmax
    → s1 < adler_base
    → s2 < adler_base
    → (s1 + 255 * k < u32_mod) × (s2 + k * s1 + 255 * triangle k < u32_mod)
chunk_fits k s1 s2 hk h1 h2 =
    let products : k * s1 ≤ 5552 * 65520 = grind arith in
    (omega arith, omega (arith, triangle_mono k 5552 hk, triangle_nmax))
  where
    triangle_nmax : triangle 5552 ≡ 15415128
    triangle_nmax = triangle_5552

-- A chunk, reduced, is the definition on the chunk.
chunk_reduced :
    (cs : List ℕ) (s1 s2 : ℕ)
    → length cs ≤ adler_nmax
    → s1 < adler_base
    → s2 < adler_base
    → ((adler_chunk cs s1 s2).0 % adler_base ≡ (adler_sums cs s1 s2).0)
      × ((adler_chunk cs s1 s2).1 % adler_base ≡ (adler_sums cs s1 s2).1)
chunk_reduced cs s1 s2 hk h1 h2 = omega (
  arith,
  chunk-sums cs s1 s2 s1 s2 (chunk_fits (length cs) s1 s2 hk h1 h2).0
      (chunk_fits (length cs) s1 s2 hk h1 h2).1 refl refl,
  sums-lt cs s1 s2 h1 h2,
)

sums_chunked :
    (k : ℕ) (buff : List ℕ) (s1 s2 : ℕ)
    → adler_sums (drop k buff) (adler_sums (take k buff) s1 s2).0 (adler_sums (take k buff) s1 s2).1
      ≡ adler_sums buff s1 s2
sums_chunked k buff s1 s2 =
    sym (sums-append (take k buff) (drop k buff) s1 s2)
    ∙ ap (λ b. adler_sums b s1 s2) (take-append-drop k buff)

-- The length of the next chunk.
abbrev chunk_length : List ℕ → ℕ
chunk_length buff = if ltb (length buff) adler_nmax then length buff else adler_nmax

-- Every round of the outer loop does what the definition does on its chunk.
loop-sums :
    (fuel : ℕ) (buff : List ℕ) (s1 s2 : ℕ)
    → length buff ≤ fuel
    → s1 < adler_base
    → s2 < adler_base
    → adler_loop fuel buff s1 s2 ≡ adler_sums buff s1 s2
unfolding adler_loop
loop-sums zero [] s1 s2 h h1 h2 = empty_sums s1 s2
loop-sums zero (x ∷ xs) s1 s2 h h1 h2 = absurd (omega arith)
loop-sums (suc fuel) [] s1 s2 h h1 h2 = empty_sums s1 s2
loop-sums (suc fuel) (x ∷ xs) s1 s2 h h1 h2 =
    rw (reduced.0, reduced.1, lt→ltb 0 (length (x ∷ xs)) (omega arith))
      (loop-sums fuel (drop k (x ∷ xs)) _ _ shorter (sums-lt (take k (x ∷ xs)) s1 s2 h1 h2).0
          (sums-lt (take k (x ∷ xs)) s1 s2 h1 h2).1
        ∙ sums_chunked k (x ∷ xs) s1 s2)
  where
    k : ℕ
    k = chunk_length (x ∷ xs)

    shorter : length (drop k (x ∷ xs)) ≤ fuel
    shorter = ground (arith, length-drop k (x ∷ xs))

    reduced :
        ((adler_chunk (take k (x ∷ xs)) s1 s2).0 % adler_base
          ≡ (adler_sums (take k (x ∷ xs)) s1 s2).0)
        × ((adler_chunk (take k (x ∷ xs)) s1 s2).1 % adler_base
            ≡ (adler_sums (take k (x ∷ xs)) s1 s2).1)
    reduced = chunk_reduced (take k (x ∷ xs)) s1 s2 (ground (arith, length-take k (x ∷ xs))) h1 h2

adler_joined :
    (a : ℕ) (buff : List ℕ)
    → a % 2 ^ 16 < adler_base
    → a / 2 ^ 16 < adler_base
    → let (s1, s2) = adler_loop (length buff) buff (a % 2 ^ 16) (a / 2 ^ 16) in
      let (r1, r2) = adler_sums buff (a % 2 ^ 16) (a / 2 ^ 16) in
      bit_or (s2 * 2 ^ 16 % u32_mod) s1 ≡ r2 * 2 ^ 16 + r1
adler_joined a buff h1 h2 =
    rw (loop-sums (length buff) buff (a % 2 ^ 16) (a / 2 ^ 16) (omega arith) h1 h2) (
      ap (λ t. bit_or t r1) {x = r2 * 2 ^ 16 % u32_mod} {y = r2 * 2 ^ 16} (omega (arith, reduced))
      ∙ bit_or_disjoint 16 16 r2 r1 (omega (arith, reduced)) (omega (arith, reduced)))
  where
    r1 : ℕ
    r1 = (adler_sums buff (a % 2 ^ 16) (a / 2 ^ 16)).0

    r2 : ℕ
    r2 = (adler_sums buff (a % 2 ^ 16) (a / 2 ^ 16)).1

    reduced : (r1 < adler_base) × (r2 < adler_base)
    reduced = sums-lt buff (a % 2 ^ 16) (a / 2 ^ 16) h1 h2

-- Where both halves of `adler` are below 65521, aux_adler32 is the Adler checksum (both sums
-- reduced at every byte) continued from `adler`, of which 0 is taken for 1: the loop with its
-- late reductions loses nothing to 32 bits, and `|` joins the two halves.
pub adler32_lem :
    (adler : ℕ) (buff : List ℕ)
    → adler % 2 ^ 16 < adler_base
    → adler / 2 ^ 16 < adler_base
    → let a = if adler == 0 then 1 else adler in
      adler32 adler buff
      ≡ (adler_sums buff (a % 2 ^ 16) (a / 2 ^ 16)).1 * 2 ^ 16
        + (adler_sums buff (a % 2 ^ 16) (a / 2 ^ 16)).0
unfolding adler32
adler32_lem adler buff h1 h2 =
    adler_joined (if adler == 0 then 1 else adler) buff (ground arith) (ground arith)
