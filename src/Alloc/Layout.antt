-- ===== src/Alloc/Layout.antt =====
-- alloc40_layout: which blocks the loop visits, and what it does with the errors of its callback.
use reiser4progs.Prelude.{
  ℕ, zero, suc, ◌+◌, ◌*◌, ◌/◌, Bool, false, not, ltb, ◌==◌, if◌then◌else◌, ◌&&◌, ◌||◌, List, [],
  ◌∷◌, bit_or,
}
use reiser4progs.Aal.Device.{Device}
use reiser4progs.Alloc.{Alloc}

-- The blocks below `limit` that the loop goes through from `blk` on, in `fuel` rounds at most.
unfoldable pub visited : ℕ → ℕ → ℕ → ℕ → List ℕ
visited zero bpb limit blk = []
visited (suc fuel) bpb limit blk =
    let rest = visited fuel bpb limit ((blk / bpb + 1) * bpb) in
    if ltb blk limit then blk ∷ rest else []

abbrev pub contains : List ℕ → ℕ → Bool
contains [] x = false
contains (y ∷ ys) x = y == x || contains ys x

-- The callback on each block of a list, up to the first error that is not -ESTRUCT.
unfoldable pub over_blocks : {S : Type 0} ⦃dev : Device⦄ → (ℕ → S → ℕ × S) → ℕ → S → List ℕ → ℕ × S
over_blocks f res st [] = (res, st)
over_blocks ⦃dev⦄ f res st (blk ∷ blks) =
    let (e, st') = f blk st in
    let res' = bit_or res e in
    let rest = over_blocks f res' st' blks in
    if not (res' == 0) && not (res' == dev.estruct) then (res', st') else rest
