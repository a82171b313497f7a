-- ===== src/Oid/Tests.antt =====
-- Runs of plugin/oid/oid40/oid40.c, and the theorems applied to them.
use reiser4progs.Prelude.{ℕ, ◌≡◌, refl, true, false, some, List, [], ◌∷◌, arith, replicate}
use reiser4progs.Oid.{Oid, oid40_reserved, open_oid, create_oid, sync, allocate, allocate_many}
use reiser4progs.Oid.Laws.{Handed, allocate_many-Handed, open_oid-sync}

abbrev fresh : Oid
fresh = record { dirty = true; next = oid40_reserved; used = 0 }

allocate_run : (allocate_many 2 fresh).0 ≡ 65536 ∷ 65537 ∷ []
unfolding allocate_many allocate
allocate_run = refl

allocate_many-Handed_example : let (oids, oid') = allocate_many 2 fresh in Handed fresh oid' 2 oids
allocate_many-Handed_example = allocate_many-Handed 2 fresh (omega arith) (omega arith)

abbrev area : List ℕ
area = replicate 20 7

open_oid-sync_example :
    (open_oid true (sync fresh area false).0
      ≡ some (record { dirty = false; next = 65536; used = 0 }))
    × ((area' : List ℕ) × (create_oid true area ≡ some (fresh, area'))
        × (open_oid true area' ≡ some (record { dirty = false; next = 65536; used = 0 })))
open_oid-sync_example = open_oid-sync fresh area false (omega arith) (omega arith)
