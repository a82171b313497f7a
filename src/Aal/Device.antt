-- ===== src/Aal/Device.antt =====
-- What alloc40.c takes from libaal's block devices and error codes. A disk gives each block its
-- bytes; an errno_t is the bit pattern of its negative number, and 0 is success.
use reiser4progs.Prelude.{ℕ, ◌-◌, ◌<◌, ◌≡◌, refl, List, ◌==◌, if◌then◌else◌, u32_mod, arith}

abbrev pub Disk : Type 0
Disk = ℕ → List ℕ

pub record Device : Type 0 where
  -- -ESTRUCT, -ENOMEM and -EINVAL
  pub estruct : ℕ
  pub enomem : ℕ
  pub einval : ℕ
  -- aal_block_init of a block, aal_block_read and aal_block_write.
  pub block_init : ℕ → ℕ
  pub block_read : Disk → ℕ → ℕ × List ℕ
  pub block_write : Disk → ℕ → List ℕ → ℕ × Disk
  pub failures : (0 < estruct) × (0 < enomem) × (0 < einval)
  pub block_read_lem :
      (d : Disk) (blk : ℕ) → (block_read d blk).0 ≡ 0 → (block_read d blk).1 ≡ d blk
  pub block_write_lem :
      (d : Disk) (blk : ℕ) (bytes : List ℕ)
      → (block_write d blk bytes).0 ≡ 0
      → (k : ℕ) → (block_write d blk bytes).1 k ≡ (if blk == k then bytes else d k)

-- A device on which everything succeeds.
instance abbrev pub faultless : Device
faultless = record {
  estruct = u32_mod - 50;
  enomem = u32_mod - 12;
  einval = u32_mod - 22;
  block_init = λ blk. 0;
  block_read = λ d blk. (0, d blk);
  block_write = λ d blk bytes. (0, λ k. if blk == k then bytes else d k);
  failures = (omega arith, omega arith, omega arith);
  block_read_lem = λ d blk e. refl;
  block_write_lem = λ d blk bytes e k. refl;
}
