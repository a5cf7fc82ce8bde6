-- ===== src/Flash/Program/Unverified.antt =====
-- A difference that flash_write_region does not report.
use gen_blob.Base.{
  ℕ, zero, suc, ◌+◌, ◌-◌, ◌<◌, true, false, none, some, ◌≡◌, ◌≢◌, refl, ap, arith, ◌==◌, u32, pos,
  ne→==,
}
use gen_blob.Flash.Program.{
  Bus, ready, timeout, block_size, wait_ready, program_turn, program_loop, verify, after_program,
  flash_program_buf, write_loop, flash_write_region,
}

module _ {Chip : Type 0} (bus : Bus Chip) (data_at : ℕ → ℕ) where
  -- Every read shows the ready bit.
  abbrev pub AlwaysReady : Type 0
  AlwaysReady = (addr : ℕ) (c : Chip) → ready (bus.read addr c).0 ≡ true

  wait_ready-true :
      (n rom : ℕ) (c : Chip)
      → AlwaysReady
      → 0 < n
      → (c' : Chip) × (wait_ready bus data_at rom n c ≡ (true, c'))
  unfolding wait_ready
  wait_ready-true zero rom c r h = absurd (omega arith)
  wait_ready-true (suc n) rom c r h = ((bus.read rom c).1, rw (r rom c) refl)

  program_turn-ready :
      (rom addr src : ℕ) (c : Chip)
      → AlwaysReady
      → (program_turn bus data_at rom addr src c).0 ≡ none
  unfolding program_turn
  program_turn-ready rom addr src c r =
      let (c1, first) = wait_ready-true timeout rom (bus.write rom 0xe8 c) r (omega arith) in
      let second : (c2 : Chip)
          → (wait_ready bus data_at rom timeout (bus.write rom 0xd0 c2)).0 ≡ true =
        λ c2.
          ap (λ w. w.0) (wait_ready-true timeout rom (bus.write rom 0xd0 c2) r (omega arith)).1 in
      rw (first, second _) refl

  program_loop-ready :
      (fuel rom addr src len : ℕ) (c : Chip)
      → AlwaysReady
      → len < fuel
      → (c' : Chip) × (program_loop bus data_at fuel rom addr src len c ≡ some (none, c'))
  unfolding program_loop
  program_loop-ready zero rom addr src len c r h = absurd (omega arith)
  program_loop-ready (suc fuel) rom addr src zero c r h = (c, refl)
  program_loop-ready (suc fuel) rom addr src (suc n) c r h =
      rw (program_loop, program_turn-ready rom addr src c r)
        (program_loop-ready fuel rom (u32 (addr + 64)) (u32 (src + 64)) (suc n - 64)
          (program_turn bus data_at rom addr src c).1 r (omega arith))

  verify_first :
      (fuel addr src : ℕ) (c : Chip)
      → (bus.read addr c).0 ≢ data_at src
      → verify bus data_at (suc fuel) addr src block_size c ≡ some (0, (bus.read addr c).1)
  unfolding verify
  verify_first fuel addr src c h =
      let differ : (bus.read addr c).0 == data_at src ≡ false = ne→== _ _ h in rw differ refl

  program_buf_unverified :
      (dst src : ℕ) (c : Chip)
      → AlwaysReady
      → ((c : Chip) → (bus.read dst c).0 ≢ data_at src)
      → (c' : Chip) × (flash_program_buf bus data_at dst src block_size c ≡ some (0, c'))
  unfolding flash_program_buf after_program
  program_buf_unverified dst src c r h =
      let (c1, runs) =
        program_loop-ready (suc block_size) dst dst src block_size (bus.write dst 0x50 c) r
          (omega arith) in
      (
        bus.write dst 0xff (bus.read dst c1).1,
        rw (runs, verify_first block_size dst src c1 (h c1)) refl,
      )

  write_loop_block :
      (fuel dst src : ℕ) (c c' : Chip)
      → flash_program_buf bus data_at dst src block_size c ≡ some (0, c')
      → write_loop bus data_at (suc (suc fuel)) dst src block_size c ≡ some (pos 0, c')
  unfolding write_loop
  write_loop_block fuel dst src c c' h = rw (write_loop, h) refl

  -- A whole block of 0x20000 bytes on a chip that always shows the ready bit and whose first halfword
  -- never reads as that of the data: flash_write_region returns 0.
  pub flash_write_region_unverified :
      (dst src : ℕ) (c : Chip)
      → AlwaysReady
      → ((c : Chip) → (bus.read dst c).0 ≢ data_at src)
      → (c' : Chip) × (flash_write_region bus data_at dst src block_size c ≡ some (pos 0, c'))
  unfolding flash_write_region
  flash_write_region_unverified dst src c r h =
      let (c1, runs) = program_buf_unverified dst src c r h in
      (c1, write_loop_block 131071 dst src c c1 runs)
