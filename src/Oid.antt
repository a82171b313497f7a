-- ===== src/Oid.antt =====
-- plugin/oid/oid40: the allocator of object ids, two counters that are kept in an area of the super
-- block. A function that changes `*entity` returns the new record; the area is the list of its bytes,
-- which a function that writes it returns too. Of `state` the code uses the bit ENTITY_DIRTY alone.
pub mod Laws
mod Tests
use reiser4progs.Prelude.{
  ℕ, zero, suc, ◌+◌, ◌-◌, ◌^◌, ◌%◌, Bool, true, false, Option, none, some, List, [], ◌∷◌, ◌++◌,
  take, drop, ltb, if◌then◌else◌, u64_mod, bytes_of, of_bytes,
}

abbrev pub oid40_root_locality : ℕ
oid40_root_locality = 0x29

abbrev pub oid40_root_objectid : ℕ
oid40_root_objectid = oid40_root_locality + 1

abbrev pub oid40_safe_locality : ℕ
oid40_safe_locality = oid40_root_objectid + 1

abbrev pub oid40_reserved : ℕ
oid40_reserved = 65536

abbrev pub oid40_lost_objectid : ℕ
oid40_lost_objectid = oid40_reserved - 1

-- oid40_t
pub record Oid : Type 0 where
  pub dirty : Bool
  pub next : ℕ
  pub used : ℕ

-- The macros oid40_get_next, _set_next, _get_used and _set_used: two little-endian words.
unfoldable pub area_next : List ℕ → ℕ
area_next area = of_bytes (take 8 area)

unfoldable pub set_area_next : List ℕ → ℕ → List ℕ
set_area_next area val = bytes_of 8 val ++ drop 8 area

unfoldable pub area_used : List ℕ → ℕ
area_used area = of_bytes (take 8 (drop 8 area))

unfoldable pub set_area_used : List ℕ → ℕ → List ℕ
set_area_used area val = take 8 area ++ (bytes_of 8 val ++ drop 16 area)

unfoldable pub get_state : Oid → Bool
get_state oid = oid.dirty

unfoldable pub set_state : Oid → Bool → Oid
set_state oid state = record oid { dirty = state }

unfoldable pub get_next_oid : Oid → ℕ
get_next_oid oid = oid.next

unfoldable pub get_used_oid : Oid → ℕ
get_used_oid oid = oid.used

unfoldable pub set_next_oid : Oid → ℕ → Oid
set_next_oid oid next = record oid { next = next; dirty = true }

unfoldable pub set_used_oid : Oid → ℕ → Oid
set_used_oid oid used = record oid { used = used; dirty = true }

-- `mem` is the outcome of the aal_calloc.
unfoldable pub open_oid : Bool → List ℕ → Option Oid
open_oid mem area =
    if mem
    then some (record { dirty = false; next = area_next area; used = area_used area })
    else none

unfoldable pub create_oid : Bool → List ℕ → Option (Oid × List ℕ)
create_oid mem area =
    if mem
    then some (
      record { dirty = true; next = oid40_reserved; used = 0 },
      set_area_used (set_area_next area oid40_reserved) 0,
    )
    else none

-- The new area, and that the format is marked dirty.
unfoldable pub sync : Oid → List ℕ → Bool → List ℕ × Bool
sync oid area format_dirty = (set_area_used (set_area_next area oid.next) oid.used, true)

unfoldable pub allocate : Oid → ℕ × Oid
allocate oid =
    let oid' : Oid = record {
      dirty = true;
      next = (oid.next + 1) % u64_mod;
      used = (oid.used + 1) % u64_mod;
    } in
    ((oid'.next + u64_mod - 1) % u64_mod, oid')

-- (The oid that is released is not looked at.)
unfoldable pub release : Oid → ℕ → Oid
release oid objectid = record oid { used = (oid.used + u64_mod - 1) % u64_mod; dirty = true }

unfoldable pub free : Oid → ℕ
free oid = u64_mod - 1 - oid.next

-- Is the result 0, and not -EINVAL?
unfoldable pub valid : Oid → Bool
valid oid = if ltb oid.next oid40_root_locality then false else true

-- `n` allocations in a row: the oids, and the allocator behind them.
unfoldable pub allocate_many : ℕ → Oid → List ℕ × Oid
allocate_many zero oid = ([], oid)
allocate_many (suc n) oid =
    let (first, oid') = allocate oid in
    let (others, oid'') = allocate_many n oid' in (first ∷ others, oid'')
