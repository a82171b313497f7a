-- ===== src/Aux/Tests.antt =====
-- Runs of libaux/aux.c, and the theorems applied to them.
use reiser4progs.Prelude.{
  some, ℕ, ◌+◌, ◌*◌, ◌^◌, ◌≡◌, refl, false, List, [], ◌∷◌, ltb, ◌==◌, if◌then◌else◌, arith,
}
use reiser4progs.Aux.Search.{
  Comparison, less, equal, greater, bin_search, search_loop, le_int, half_int, IsOrdered, Located,
  bin_search-Located,
}
use reiser4progs.Aux.Adler.{adler_sums, adler32, adler_loop, adler_chunk, adler32_lem}
use reiser4progs.Aux.Names.{pack_chars, pack_string, unpack_string, unpack_string-pack_string}

-- The numbers 0, 10, 20, ... against 35.
abbrev tens : ℕ → Comparison
tens i = if ltb (10 * i) 35 then less else if 10 * i == 35 then equal else greater

tens-IsOrdered : IsOrdered tens 6
tens-IsOrdered = record { down = λ i j h lt e. ground arith; up = λ i j h lt e. ground arith }

bin_search_run : bin_search tens 6 ≡ some (false, 4)
unfolding bin_search search_loop le_int half_int
bin_search_run = refl

bin_search-Located_example : Located tens 6 (bin_search tens 6)
bin_search-Located_example = bin_search-Located tens 6 tens-IsOrdered (omega arith)

-- The characters of "Wikipedia", whose checksum is well known.
abbrev wikipedia : List ℕ
wikipedia = b'W' ∷ b'i' ∷ b'k' ∷ b'i' ∷ b'p' ∷ b'e' ∷ b'd' ∷ b'i' ∷ b'a' ∷ []

adler32_run : adler32 1 wikipedia ≡ 0x11e60398
unfolding adler32 adler_loop adler_chunk
adler32_run = refl

adler32_lem_example :
    adler32 1 wikipedia ≡ (adler_sums wikipedia 1 0).1 * 2 ^ 16 + (adler_sums wikipedia 1 0).0
adler32_lem_example = adler32_lem 1 wikipedia (omega arith) (omega arith)

pack_string_run : pack_string (b'a' ∷ b'b' ∷ []) 1 ≡ 0x0061620000000000
unfolding pack_string pack_chars
pack_string_run = refl

unpack_string-pack_string_example :
    unpack_string (pack_string (b'a' ∷ b'b' ∷ []) 1) ≡ b'a' ∷ b'b' ∷ []
unpack_string-pack_string_example =
    unpack_string-pack_string (b'a' ∷ b'b' ∷ []) 1
      (omega arith, omega arith, (omega arith, omega arith, tt)) (omega arith) (omega arith)
