-- ===== src/Key/Order.antt =====
-- kl_comp_el and ks_comp_el in a chain: keys as numbers whose digits are the elements.
use reiser4progs.Prelude.{ℕ, ◌+◌, ◌*◌, ◌≤◌, ◌<◌, ◌≡◌, refl, Bool, true, false, if◌then◌else◌, arith}
use reiser4progs.Aux.Search.{Comparison, less, equal, greater}
use reiser4progs.Key.{comp_el, first_of}

-- Two digits more: a high element decides, an equal one leaves it to the rest.
pub first_of-comp_el :
    (base a b x y : ℕ)
    → x < base
    → y < base
    → first_of (comp_el a b) (comp_el x y) ≡ comp_el (a * base + x) (b * base + y)
unfolding first_of comp_el
first_of-comp_el base a b x y hx hy =
    ground (arith, (λ (h : a < b). mul_gap base a b h), (λ (h : b < a). mul_gap base b a h))
  where
    mul_gap : (base a b : ℕ) → a < b → a * base + base ≤ b * base
    mul_gap base a b h = grind arith

-- A prefix of a chain of comparisons decides as the whole chain does, or does not decide.
pub first_of-prefix :
    (c0 c1 c2 c3 : Comparison) (t : Bool)
    → let whole = first_of c0 (first_of c1 (first_of c2 c3)) in
      first_of (first_of c0 (if t then equal else first_of c1 c2)) whole ≡ whole
unfolding first_of
first_of-prefix less c1 c2 c3 t = refl
first_of-prefix greater c1 c2 c3 t = refl
first_of-prefix equal c1 c2 c3 true = refl
first_of-prefix equal less c2 c3 false = refl
first_of-prefix equal greater c2 c3 false = refl
first_of-prefix equal equal less c3 false = refl
first_of-prefix equal equal greater c3 false = refl
first_of-prefix equal equal equal c3 false = refl
