-- ===== src/Flash/Intel16.antt =====
-- src/blob/intel16.c: the driver of a single 16-bit Intel flash chip. The chip on its bus is a
-- parameter, and the loops that poll its status are on fuel.
pub mod Polling
pub mod Stored
use gen_blob.Base.{
  ℕ, zero, suc, ◌+◌, ◌/◌, ◌%◌, Bool, Option, none, some, ◌==◌, if◌then◌else◌, ℤ, pos, neg, equals_ℕ,
  u16, u32, ◌>>=◌,
}
use gen_blob.Flash.{eflasherase, eflashpgm}
use gen_blob.Flash.Program.{Bus}

-- STATUS_BUSY, which the chip shows while it is ready
abbrev pub is_ready : ℕ → Bool
is_ready result = result / 0x80 % 2 == 1

-- STATUS_ERASE_ERR
abbrev pub erase_err : ℕ → Bool
erase_err result = result / 0x20 % 2 == 1

-- STATUS_PGM_ERR
abbrev pub pgm_err : ℕ → Bool
pgm_err result = result / 0x10 % 2 == 1

module _ {Chip : Type 0} (bus : Bus Chip) where
  -- One turn of a loop that polls: STATUS_READ, and the status.
  unfoldable pub read_status : ℕ → Chip → ℕ × Chip
  read_status addr c = let (value, c') = bus.read addr (bus.write addr 0x70 c) in (u16 value, c')

  -- The loop that polls: the first status that shows the chip ready.
  unfoldable pub poll : ℕ → ℕ → Chip → Option (ℕ × Chip)
  unfolding read_status
  poll zero addr c = none
  poll (suc fuel) addr c =
      let (result, c') = read_status addr c in
      let rest = poll fuel addr c' in if is_ready result then some (result, c') else rest

  unfoldable pub do_erase : ℕ → ℕ → Chip → Option (ℤ × Chip)
  do_erase fuel addr c = do
    (result, c') ←
        poll fuel addr (bus.write addr 0xd0 (bus.write addr 0x20 (bus.write addr 0x50 c)))
    some (if erase_err result then neg eflasherase else pos 0, bus.write addr 0xff c')

  -- The second erasure of flash_erase_intel16, of a halfword that is not erased yet.
  unfoldable pub erase_second : ℕ → ℕ → Chip → Option (ℤ × Chip)
  erase_second fuel addr c =
      let (value, c') = bus.read addr c in
      let erased = do_erase fuel addr c' in if u16 value == 0xffff then some (pos 0, c') else erased

  unfoldable pub flash_erase_intel16 : ℕ → ℕ → Chip → Option (ℤ × Chip)
  flash_erase_intel16 fuel addr c = do
    (result, c') ← do_erase fuel addr c
    let second = erase_second fuel (u32 (addr + 2)) c'
    if equals_ℕ result 0 then second else some (result, c')

  -- Locking and unlocking differ in the command behind CONFIG_SETUP.
  unfoldable pub config_block : ℕ → ℕ → Chip → ℤ × Chip
  unfolding read_status
  config_block command p c =
      let (result, c') =
        read_status p (bus.write p command (bus.write p 0x60 (bus.write p 0x50 c))) in
      (if pgm_err result then neg eflashpgm else pos 0, bus.write p 0xff c')

  unfoldable pub flash_lock_block_intel16 : ℕ → Chip → ℤ × Chip
  flash_lock_block_intel16 p c = config_block 0x01 p c

  unfoldable pub flash_unlock_block_intel16 : ℕ → Chip → ℤ × Chip
  flash_unlock_block_intel16 p c = config_block 0xd0 p c

  -- The two lowest bits of the halfword behind READ_CONFIG. READ_ARRAY is written as a 32-bit word,
  -- by the argument.
  unfoldable pub flash_query_block_lock_intel16 : (ℕ → ℕ → Chip → Chip) → ℕ → Chip → ℤ × Chip
  flash_query_block_lock_intel16 write_word p c =
      let (value, c') = bus.read (u32 (p + 4)) (bus.write p 0x90 c) in
      (pos (u16 value % 4), write_word p 0xff c')

-- The words to write are in a memory of their own.
module _ {Chip : Type 0} (bus : Bus Chip) (data_at : ℕ → ℕ) where
  -- The end of do_write: the halfword is only read if the status shows no error.
  unfoldable pub check_write : ℕ → ℕ → ℕ → Chip → ℤ × Chip
  check_write result dst src c =
      let (value, c') = bus.read dst c in
      if pgm_err result
      then (neg eflashpgm, c)
      else if u16 value == data_at src
      then (pos 0, c')
      else (neg eflashpgm, c')

  unfoldable pub do_write : ℕ → ℕ → ℕ → Chip → Option (ℤ × Chip)
  do_write fuel dst src c = do
    (result, c') ←
        poll bus fuel dst (bus.write dst (data_at src) (bus.write dst 0x40 (bus.write dst 0x50 c)))
    some (check_write result dst src (bus.write dst 0xff c'))

  unfoldable pub flash_write_intel16 : ℕ → ℕ → ℕ → Chip → Option (ℤ × Chip)
  flash_write_intel16 fuel dst src c = do
    (result, c') ← do_write fuel dst src c
    let second = do_write fuel (u32 (dst + 2)) (u32 (src + 2)) c'
    if equals_ℕ result 0 then second else some (result, c')
