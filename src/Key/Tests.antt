-- ===== src/Key/Tests.antt =====
-- Runs of the key plugins, and the theorems applied to them.
use reiser4progs.Prelude.{ℕ, ◌≡◌, ◌<◌, ◌^◌, refl, some, List, [], ◌∷◌, length, ltb, arith}
use reiser4progs.Aux.Search.{less}
use reiser4progs.Aux.Names.{AllChars}
use reiser4progs.Key.{comp_el, first_of}
use reiser4progs.Key.Large.{KeyLarge}
use reiser4progs.Key.Large as Large
use reiser4progs.Key.Large.Generic.{IsWords, number, compfull_lem, build_generic_lem}
use reiser4progs.Key.Large.Names.{hashed-build_hashed, get_name-build_hashed}
use reiser4progs.Key.Short.{KeyShort}
use reiser4progs.Key.Short as Short
use reiser4progs.Key.Short.Fields.{IsShortWords, number as short_number, compfull-number}
use reiser4progs.Key.Short.Names.{get_name-short_name}

abbrev one : KeyLarge
one = record { el0 = 0x291; el1 = 0; el2 = 0x2a; el3 = 0 }

abbrev two : KeyLarge
two = record { el0 = 0x291; el1 = 0; el2 = 0x2b; el3 = 7 }

one-IsWords : IsWords one
one-IsWords = record {
  word0 = omega arith;
  word1 = omega arith;
  word2 = omega arith;
  word3 = omega arith;
}

two-IsWords : IsWords two
two-IsWords = record {
  word0 = omega arith;
  word1 = omega arith;
  word2 = omega arith;
  word3 = omega arith;
}

abbrev short_one : KeyShort
short_one = record { el0 = 0x291; el1 = 0x2a; el2 = 0 }

short_one-IsShortWords : IsShortWords short_one
short_one-IsShortWords = record { word0 = omega arith; word1 = omega arith; word2 = omega arith }

abbrev no_hash : List ℕ → ℕ → ℕ
no_hash name len = 77

abbrev last_char : List ℕ → ℕ → ℕ
last_char name len = b'o'

-- What fibre_dot_o_build returns for names that end in ".o".
abbrev dot_o : List ℕ → ℕ → ℕ
dot_o name len = 1

-- "main.o"
abbrev main_o : List ℕ
main_o = b'm' ∷ b'a' ∷ b'i' ∷ b'n' ∷ b'.' ∷ b'o' ∷ []

main_o-AllChars : AllChars main_o
main_o-AllChars = (
  omega arith,
  omega arith,
  (
    omega arith,
    omega arith,
    (
      omega arith,
      omega arith,
      (omega arith, omega arith, (omega arith, omega arith, (omega arith, omega arith, tt))),
    ),
  ),
)

compfull_run : Large.compfull one two ≡ less
unfolding Large.compfull Large.compraw comp_el first_of
compfull_run = refl

compfull_lem_example : Large.compfull one two ≡ comp_el (number one) (number two)
compfull_lem_example = compfull_lem one two one-IsWords two-IsWords

build_generic_lem_example :
    let key = Large.build_generic 4 0x29 5 0x2a 4096 in
    IsWords key
    × (Large.get_type key ≡ 4)
    × (Large.get_locality key ≡ 0x29)
    × (Large.get_ordering key ≡ 5)
    × (Large.get_fobjectid key ≡ 0x2a)
    × (Large.get_offset key ≡ 4096)
build_generic_lem_example =
    build_generic_lem 4 0x29 5 0x2a 4096 (omega arith) (omega arith) (omega arith) (omega arith)
      (omega arith)

hashed-build_hashed_example :
    Large.hashed (Large.build_hashed no_hash last_char 0 0x2a main_o) ≡ ltb 23 (length main_o)
hashed-build_hashed_example =
    hashed-build_hashed no_hash last_char 0 0x2a main_o main_o-AllChars (omega arith)

get_name-build_hashed_example :
    Large.get_name (Large.build_hashed no_hash last_char 0 0x2a main_o) ≡ some main_o
get_name-build_hashed_example =
    get_name-build_hashed no_hash last_char 0 0x2a main_o main_o-AllChars (omega arith)
      (omega arith)

compfull-number_example :
    (Short.compfull short_one short_one ≡ comp_el (short_number short_one) (short_number short_one))
    × (first_of (Short.compshort short_one short_one) (Short.compfull short_one short_one)
        ≡ Short.compfull short_one short_one)
compfull-number_example =
    compfull-number short_one short_one short_one-IsShortWords short_one-IsShortWords

get_name-short_name_example :
    let key = Short.build_hashed no_hash dot_o 0 0x2a main_o in
    (Short.get_fobjectid key < 2 ^ 60) × (Short.get_name key ≡ some main_o)
get_name-short_name_example =
    get_name-short_name no_hash dot_o 0 0x2a main_o main_o-AllChars (omega arith) (omega arith)
      (λ nodot. omega arith)
