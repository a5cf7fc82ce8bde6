-- ===== src/Flash/Intel32.antt =====
-- src/blob/intel32.c: the driver of two 16-bit Intel flash chips side by side. The chips on their
-- bus, of 32 bits here, and the two functions that order the bits of a word for it, which are not
-- written in C, are parameters; the loops that poll the status are on fuel.
pub mod Both
use gen_blob.Base.{
  ℕ, zero, suc, ◌+◌, ◌-◌, ◌^◌, Bool, not, ◌||◌, Option, none, some, ◌==◌, if◌then◌else◌, ℤ, pos,
  neg, u32, bit_and, ◌>>=◌,
}
use gen_blob.Flash.{eflasherase, eflashpgm}
use gen_blob.Flash.Program.{Bus}

-- `(~result & STATUS_BUSY) == 0`
abbrev pub both_ready : ℕ → Bool
both_ready result = bit_and (2 ^ 32 - 1 - result) 0x00800080 == 0

-- A bit of either chip's status.
abbrev pub shows_err : ℕ → ℕ → Bool
shows_err bits result = not (bit_and result bits == 0)

module _ {Chip : Type 0} (bus : Bus Chip) (to_flash from_flash : ℕ → ℕ) where
  unfoldable pub command : ℕ → ℕ → Chip → Chip
  command addr c chip = bus.write addr (to_flash c) chip

  -- One turn of a loop that polls: STATUS_READ, and the status.
  unfoldable pub read_both : ℕ → Chip → ℕ × Chip
  read_both addr c =
      let (value, c') = bus.read addr (command addr 0x00700070 c) in (u32 (from_flash value), c')

  -- The loop that polls: the first status that shows both chips ready.
  unfoldable pub poll_both : ℕ → ℕ → Chip → Option (ℕ × Chip)
  unfolding read_both
  poll_both zero addr c = none
  poll_both (suc fuel) addr c =
      let (result, c') = read_both addr c in
      let rest = poll_both fuel addr c' in if both_ready result then some (result, c') else rest

  unfoldable pub flash_erase_intel32 : ℕ → ℕ → Chip → Option (ℤ × Chip)
  flash_erase_intel32 fuel addr c = do
    (result, c') ←
        poll_both fuel addr
          (command addr 0x00d000d0 (command addr 0x00200020 (command addr 0x00500050 c)))
    some
        (if shows_err 0x00200020 result then neg eflasherase else pos 0, command addr 0x00ff00ff c')

  -- The end of flash_write_intel32: the word is only read if the status shows no error. `*src` is
  -- `word`.
  unfoldable pub check_word : ℕ → ℕ → ℕ → Chip → ℤ × Chip
  check_word result dst word c =
      let (value, c') = bus.read dst c in
      if shows_err 0x00100010 result
      then (neg eflashpgm, c)
      else if u32 value == word
      then (pos 0, c')
      else (neg eflashpgm, c')

  unfoldable pub flash_write_intel32 : ℕ → ℕ → ℕ → Chip → Option (ℤ × Chip)
  flash_write_intel32 fuel dst word c = do
    (result, c') ←
        poll_both fuel dst (bus.write dst word (command dst 0x00400040 (command dst 0x00500050 c)))
    some (check_word result dst word (command dst 0x00ff00ff c'))

  unfoldable pub flash_lock_block_intel32 : ℕ → Chip → ℤ × Chip
  flash_lock_block_intel32 p c =
      let (result, c') = read_both p (
        command p 0x00ff00ff
          (command p 0x00010001 (command p 0x00600060 (command p 0x00500050 c)))) in
      (if shows_err 0x00100010 result then neg eflashpgm else pos 0, command p 0x00ff00ff c')

  unfoldable pub flash_unlock_block_intel32 : ℕ → Chip → ℤ × Chip
  flash_unlock_block_intel32 p c =
      let (result, c') =
        read_both p (command p 0x00d000d0 (command p 0x00600060 (command p 0x00500050 c))) in
      (if shows_err 0x00100010 result then neg eflashpgm else pos 0, command p 0x00ff00ff c')

  unfoldable pub flash_query_block_lock_intel32 : ℕ → Chip → ℤ × Chip
  flash_query_block_lock_intel32 p c =
      let (value, c') = bus.read (u32 (p + 8)) (command p 0x00900090 c) in
      (pos (bit_and (u32 (from_flash value)) 0x00030003), command p 0x00ff00ff c')
