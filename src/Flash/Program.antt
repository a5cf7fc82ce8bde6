-- ===== src/Flash/Program.antt =====
-- flash_program_buf and flash_write_region of src/blob/flash.c: programming through the chip's buffer
-- of 64 bytes, and the comparison behind it. The chip on the bus is a parameter.
pub mod Verify
pub mod Unverified
use gen_blob.Base.{
  ℕ, zero, suc, ◌+◌, ◌-◌, ◌*◌, ◌/◌, ◌%◌, Bool, true, false, not, Option, none, some, ltb, leb, ◌==◌,
  if◌then◌else◌, ℤ, pos, neg, u16, u32, min, ◌>>=◌,
}
use gen_blob.Flash.{eflashpgm}

-- 16-bit accesses to the addresses of the chip; a read of its status may change it.
pub record Bus (Chip : Type 0) : Type 0 where
  pub write : ℕ → ℕ → Chip → Chip
  pub read : ℕ → Chip → ℕ × Chip

-- `(stat & 0x0080) == 0x0080`
abbrev pub ready : ℕ → Bool
ready stat = stat / 128 % 2 == 1

abbrev pub timeout : ℕ
timeout = 0x50000

abbrev pub block_size : ℕ
block_size = 0x20000

module _ {Chip : Type 0} (bus : Bus Chip) (data_at : ℕ → ℕ) where
  -- The status at `rom` until it is ready, read at most `n` times.
  unfoldable pub wait_ready : ℕ → ℕ → Chip → Bool × Chip
  wait_ready rom zero c = (false, c)
  wait_ready rom (suc n) c =
      let (stat, c') = bus.read rom c in
      let again = wait_ready rom n c' in if ready stat then (true, c') else again

  -- `n` halfwords, from one address to the other.
  unfoldable pub copy_words : ℕ → ℕ → ℕ → Chip → Chip
  copy_words zero addr src c = c
  copy_words (suc n) addr src c =
      copy_words n (u32 (addr + 2)) (u32 (src + 2)) (bus.write addr (data_at src) c)

  -- After a timeout the status is what is read at `addr`.
  abbrev pub timed_out : ℕ → Chip → Option ℕ × Chip
  timed_out addr c = let (stat, c') = bus.read addr c in (some (u16 stat), c')

  -- One buffer: no status if all goes well.
  unfoldable pub program_turn : ℕ → ℕ → ℕ → Chip → Option ℕ × Chip
  program_turn rom addr src c =
      let (started, c1) = wait_ready rom timeout (bus.write rom 0xe8 c) in
      let c2 = copy_words 32 addr src (bus.write rom 31 c1) in
      let (done, c3) = wait_ready rom timeout (bus.write rom 0xd0 c2) in
      if not started
      then timed_out addr c1
      else if not done
      then timed_out (u32 (addr + 64)) c3
      else (none, bus.write rom 0xff c3)

  -- The loop over the buffers, on fuel: no status if all went well, or that of a timeout.
  unfoldable pub program_loop : ℕ → ℕ → ℕ → ℕ → ℕ → Chip → Option (Option ℕ × Chip)
  program_loop zero rom addr src len c = none
  program_loop (suc fuel) rom addr src zero c = some (none, c)
  program_loop (suc fuel) rom addr src (suc n) c =
      let (failed, c') = program_turn rom addr src c in
      let rest = program_loop fuel rom (u32 (addr + 64)) (u32 (src + 64)) (suc n - 64) c' in
      elim failed [ none ↦ rest | some stat ↦ some (some stat, c') ]

  -- The loop that compares: the number of bytes that are left at the first difference, cut to 16
  -- bits, or 0.
  unfoldable pub verify : ℕ → ℕ → ℕ → ℕ → Chip → Option (ℕ × Chip)
  verify zero taddr tdata tlen c = none
  verify (suc fuel) taddr tdata tlen c =
      let (value, c') = bus.read taddr c in
      let rest = verify fuel (u32 (taddr + 2)) (u32 (tdata + 2)) (tlen - 2) c' in
      if tlen == 0
      then some (0, c)
      else if value == data_at tdata
      then rest
      else some (u16 tlen, c')

  unfoldable pub after_program : ℕ → ℕ → ℕ → Option ℕ × Chip → Option (ℕ × Chip)
  after_program addr src len (some stat, c) = some (stat, c)
  after_program addr src len (none, c) = verify (suc len) addr src len c

  unfoldable pub flash_program_buf : ℕ → ℕ → ℕ → Chip → Option (ℕ × Chip)
  flash_program_buf addr src len c = do
    programmed ← program_loop (suc len) addr addr src len (bus.write addr 0x50 c)
    (stat, c') ← after_program addr src len programmed
    some (stat, bus.write addr 0xff c')

  -- The size is in bytes; the pointers go on by halfwords.
  unfoldable pub write_loop : ℕ → ℕ → ℕ → ℕ → Chip → Option (ℤ × Chip)
  write_loop zero dst src nwords c = none
  write_loop (suc fuel) dst src nwords c = elim nwords [
    | zero ↦ some (pos 0, c)
    | suc n ↦ (do
      let size = min (suc n) block_size
      (stat, c') ← flash_program_buf dst src size c
      let rest =
          write_loop fuel (u32 (dst + 2 * (size / 2))) (u32 (src + 2 * (size / 2))) (suc n - size)
            c'
      if not (stat == 0) then some (neg eflashpgm, c') else rest)
  ]

  unfoldable pub flash_write_region : ℕ → ℕ → ℕ → Chip → Option (ℤ × Chip)
  flash_write_region dst src nwords c = write_loop (suc nwords) dst src nwords c
