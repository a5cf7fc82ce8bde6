-- ===== src/Memtest.antt =====
-- The memory tests of src/blob/chkmem.c: the methods that move an inverse pattern through a memory
-- and that write every word's address to it. The memory is a parameter; all output is left out.
pub mod Loops
pub mod Faults
pub mod Sound
pub mod Hardcore
pub mod Chkmem
use gen_blob.Base.{
  ℕ, zero, suc, ◌+◌, ◌-◌, ◌^◌, Bool, not, Option, none, some, ltb, ◌==◌, if◌then◌else◌, u32,
  sub_u32, ◌>>=◌,
}

-- 32-bit accesses to a memory, which may be broken.
pub record Ram (Mem : Type 0) : Type 0 where
  pub write : ℕ → ℕ → Mem → Mem
  pub read : ℕ → Mem → ℕ

-- `~x`, for a u32
abbrev pub not_u32 : ℕ → ℕ
not_u32 x = 2 ^ 32 - 1 - x

-- BLOB_RAM_BASE + 0x00100000
abbrev pub blob_end : ℕ
blob_end = 0xa0300000

unfoldable pub skip_loop : ℕ → ℕ → ℕ
skip_loop zero start = start
skip_loop (suc fuel) start =
    let rest = skip_loop fuel (start + 1) in if ltb start blob_end then rest else start

-- SKIPBLOBMEM
unfoldable pub skip_blob_mem : ℕ → ℕ
skip_blob_mem start = skip_loop (blob_end - start) start

module _ {Mem : Type 0} (ram : Ram Mem) where
  -- The loop that fills the memory, with the word that each address gets.
  unfoldable pub fillup : (ℕ → ℕ) → ℕ → ℕ → ℕ → Mem → Option Mem
  fillup value zero p end m = none
  fillup value (suc fuel) p end m =
      let rest = fillup value fuel (u32 (p + 4)) end (ram.write p (value p) m) in
      if ltb p end then rest else some m

  -- A loop that tests gives the address at which it was left by `goto DONE`, if it was.
  unfoldable pub bottom_up : ℕ → ℕ → ℕ → ℕ → Mem → Option (Option ℕ × Mem)
  bottom_up zero p end pattern m = none
  bottom_up (suc fuel) p end pattern m =
      let rest = bottom_up fuel (u32 (p + 4)) end pattern (ram.write p (not_u32 pattern) m) in
      if not (ltb p end)
      then some (none, m)
      else if not (ram.read p m == pattern)
      then some (some p, m)
      else rest

  unfoldable pub top_down : ℕ → ℕ → ℕ → ℕ → Mem → Option (Option ℕ × Mem)
  top_down zero p start pattern m = none
  top_down (suc fuel) p start pattern m =
      let rest = top_down fuel (sub_u32 p 4) start pattern (ram.write p (not_u32 pattern) m) in
      if ltb p start
      then some (none, m)
      else if not (ram.read p m == pattern)
      then some (some p, m)
      else rest

  unfoldable pub after_bottom_up : ℕ → ℕ → ℕ → ℕ → Option ℕ × Mem → Option (Option ℕ × Mem)
  after_bottom_up fuel start end pattern (some p, m) = some (some p, m)
  after_bottom_up fuel start end pattern (none, m) =
      top_down fuel (sub_u32 end 4) start (not_u32 pattern) m

  -- The failed address, with which the code returns 1, or none, with which it returns 0.
  unfoldable pub chk_mem_mov_inv : ℕ → ℕ → ℕ → ℕ → Mem → Option (Option ℕ × Mem)
  chk_mem_mov_inv fuel start end pattern m = do
    filled ← fillup (λ p. pattern) fuel (skip_blob_mem start) end m
    tested ← bottom_up fuel (skip_blob_mem start) end pattern filled
    after_bottom_up fuel (skip_blob_mem start) end pattern tested

  unfoldable pub test_addresses : ℕ → ℕ → ℕ → Mem → Option (Option ℕ × Mem)
  test_addresses zero p end m = none
  test_addresses (suc fuel) p end m =
      let rest = test_addresses fuel (u32 (p + 4)) end m in
      if not (ltb p end)
      then some (none, m)
      else if not (ram.read p m == p)
      then some (some p, m)
      else rest

  unfoldable pub chk_mem_adr_tst : ℕ → ℕ → ℕ → Mem → Option (Option ℕ × Mem)
  chk_mem_adr_tst fuel start end m = do
    filled ← fillup (λ p. p) fuel (skip_blob_mem start) end m
    test_addresses fuel (skip_blob_mem start) end filled
