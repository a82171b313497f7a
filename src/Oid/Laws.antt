-- ===== src/Oid/Laws.antt =====
-- oid40_allocate, run several times, and the counters on disk: oid40_sync, _open and _create.
use reiser4progs.Prelude.{
  ℕ, zero, suc, ◌+◌, ◌%◌, ◌<◌, ◌≡◌, refl, ◌∙◌, ap, Bool, true, false, some, List, [], ◌∷◌, ◌++◌,
  take, drop, length, get_or, u64_mod, bytes_of, length-bytes_of, of_bytes-bytes_of, arith,
}
use reiser4progs.Oid.{
  Oid, oid40_reserved, area_next, set_area_next, area_used, set_area_used, open_oid, create_oid,
  sync, allocate, allocate_many,
}

-- The last result of a run of allocations and the counters behind it.
pub record Handed (oid oid' : Oid) (n : ℕ) (oids : List ℕ) : Type 0 where
  pub many : length oids ≡ n
  pub each : (i : ℕ) → i < n → get_or oids i 0 ≡ oid.next + i
  pub next_behind : oid'.next ≡ oid.next + n
  pub used_more : oid'.used ≡ oid.used + n

each_of :
    (next n first : ℕ) (others : List ℕ)
    → first ≡ next
    → ((j : ℕ) → j < n → get_or others j 0 ≡ next + 1 + j)
    → (i : ℕ) → i < suc n
    → get_or (first ∷ others) i 0 ≡ next + i
each_of next n first others e rest zero lt = omega (arith, e)
each_of next n first others e rest (suc i) lt = omega (arith, rest i (omega arith))

-- As long as neither counter reaches 2 ^ 64, `n` allocations hand out the next `n` ids in order,
-- each once, and leave both counters greater by `n`.
pub allocate_many-Handed :
    (n : ℕ) (oid : Oid)
    → oid.next + n < u64_mod
    → oid.used + n < u64_mod
    → let (oids, oid') = allocate_many n oid in Handed oid oid' n oids
unfolding allocate_many allocate
allocate_many-Handed zero oid h h' = record {
  many = refl;
  each = λ i lt. absurd (omega arith);
  next_behind = omega arith;
  used_more = omega arith;
}
allocate_many-Handed (suc n) oid h h' =
    let oid' : Oid = record {
      dirty = true;
      next = (oid.next + 1) % u64_mod;
      used = (oid.used + 1) % u64_mod;
    } in
    let rest = allocate_many-Handed n oid' (omega arith) (omega arith) in
    record {
      many = omega (arith, rest.many);
      each = λ i lt.
          each_of oid.next n _ _ (omega arith) (λ j below. rest.each j below ∙ omega arith) i lt;
      next_behind = omega (arith, rest.next_behind);
      used_more = omega (arith, rest.used_more);
    }

-- Bytes at the front of an area.
take-front :
    (xs ys : List ℕ) (n : ℕ) → length xs ≡ n → (take n (xs ++ ys) ≡ xs) × (drop n (xs ++ ys) ≡ ys)
take-front [] ys zero e = (refl, refl)
take-front [] ys (suc n) e = absurd (omega arith)
take-front (x ∷ xs) ys zero e = absurd (omega arith)
take-front (x ∷ xs) ys (suc n) e =
    let (t, d) = take-front xs ys n (omega arith) in (ap (λ zs. x ∷ zs) t, d)

written :
    (area : List ℕ) (next used : ℕ)
    → set_area_used (set_area_next area next) used
      ≡ bytes_of 8 next ++ (bytes_of 8 used ++ drop 16 (bytes_of 8 next ++ drop 8 area))
unfolding set_area_used set_area_next
written area next used =
    ap (λ t. t ++ (bytes_of 8 used ++ drop 16 (bytes_of 8 next ++ drop 8 area)))
      (take-front (bytes_of 8 next) (drop 8 area) 8 (length-bytes_of 8 next)).0

created :
    (area : List ℕ)
    → let fresh : Oid = record { dirty = true; next = oid40_reserved; used = 0 } in
      create_oid true area ≡ some (fresh, (sync fresh area false).0)
unfolding create_oid sync
created area = refl

open_sync :
    (oid : Oid) (area : List ℕ) (format_dirty : Bool)
    → oid.next < u64_mod
    → oid.used < u64_mod
    → open_oid true (sync oid area format_dirty).0
      ≡ some (record { dirty = false; next = oid.next; used = oid.used })
unfolding open_oid sync area_next area_used
open_sync oid area format_dirty h h' =
    let front =
      take-front (bytes_of 8 oid.next)
        (bytes_of 8 oid.used ++ drop 16 (bytes_of 8 oid.next ++ drop 8 area)) 8
        (length-bytes_of 8 oid.next) in
    let second =
      take-front (bytes_of 8 oid.used) (drop 16 (bytes_of 8 oid.next ++ drop 8 area)) 8
        (length-bytes_of 8 oid.used) in
    rw (
      written area oid.next oid.used,
      front.0,
      front.1,
      second.0,
      of_bytes-bytes_of 8 oid.next (omega arith),
      of_bytes-bytes_of 8 oid.used (omega arith),
    )

-- Where the allocation succeeds, opening the allocator on an area that an allocator with 64-bit
-- counters was synced to gives its counters, clean; and an allocator that is created on any area
-- starts at OID40_RESERVED with no id used, as opening the area it wrote gives it too.
pub open_oid-sync :
    (oid : Oid) (area : List ℕ) (format_dirty : Bool)
    → oid.next < u64_mod
    → oid.used < u64_mod
    → let fresh : Oid = record { dirty = true; next = oid40_reserved; used = 0 } in
      (open_oid true (sync oid area format_dirty).0
        ≡ some (record { dirty = false; next = oid.next; used = oid.used }))
      × ((area' : List ℕ) × (create_oid true area ≡ some (fresh, area'))
          × (open_oid true area'
              ≡ some (record { dirty = false; next = oid40_reserved; used = 0 })))
open_oid-sync oid area format_dirty h h' = (
  open_sync oid area format_dirty h h',
  (
    (sync (record { dirty = true; next = oid40_reserved; used = 0 }) area false).0,
    created area,
    open_sync (record { dirty = true; next = oid40_reserved; used = 0 }) area false (omega arith)
        (omega arith),
  ),
)
