-- ===== src/Prelude/Bytes.antt =====
-- Numbers as bytes in little-endian order, which the on-disk formats use.
use Prim.Native.Nat.{ℕ, zero, suc, ◌+◌, ◌*◌, ◌/◌, ◌%◌, ◌^◌, ◌<◌}
use mathlib.Core.Path.{◌≡◌, refl}
use mathlib.Core.List.{List, [], ◌∷◌}
use native.Mathlib.Omega.{arith}
use native.Mathlib.Nat.{pow-suc}
use package.reiser4progs.Prelude.Lists.{length}

unfoldable pub bytes_of : ℕ → ℕ → List ℕ
bytes_of zero x = []
bytes_of (suc n) x = x % 256 ∷ bytes_of n (x / 256)

unfoldable pub of_bytes : List ℕ → ℕ
of_bytes [] = 0
of_bytes (b ∷ bytes) = b % 256 + 256 * of_bytes bytes

pub length-bytes_of : (n x : ℕ) → length (bytes_of n x) ≡ n
unfolding bytes_of
length-bytes_of zero x = refl
length-bytes_of (suc n) x = omega (arith, length-bytes_of n (x / 256))

pub of_bytes-bytes_of : (n x : ℕ) → x < 256 ^ n → of_bytes (bytes_of n x) ≡ x
unfolding bytes_of of_bytes
of_bytes-bytes_of zero x h = omega arith
of_bytes-bytes_of (suc n) x h =
    omega (arith, of_bytes-bytes_of n (x / 256) (omega (arith, pow-suc 256 n)))
