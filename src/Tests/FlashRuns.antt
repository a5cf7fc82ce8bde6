-- ===== src/Tests/FlashRuns.antt =====
-- Runs of the flash driver's regions.
use gen_blob.Base.{
  ℕ, suc, Bool, ◌==◌, if◌then◌else◌, ◌⊎◌, Option, none, ◌||◌, ◌*◌, true, false, List, [], ◌∷◌, ◌++◌,
  some, ◌≡◌, refl, arith, pos, neg,
}
use gen_blob.Flash.Intel16.{read_status, poll, check_write, do_write, flash_write_intel16}
use gen_blob.Flash.Intel16.Polling.{Settles, polled}
use gen_blob.Flash.Intel16.Stored.{ReadBack, flash_write_intel16-ReadBack}
use gen_blob.Flash.Program.{
  Bus, block_size, wait_ready, copy_words, program_turn, program_loop, verify, after_program,
  flash_program_buf, flash_write_region,
}
use gen_blob.Flash.Program.Verify.{Verdict, flash_program_buf-Verdict}
use gen_blob.Flash.Program.Unverified.{flash_write_region_unverified}
use gen_blob.Flash.{
  FlashDescriptor, FlashDriver, init_flash, find_block, flash_erase_region, eflashpgm,
}
use gen_blob.Flash.Blocks.{layout, block_number, init_flash-find_block}
use gen_blob.Flash.Regions.{erase_blocks, flash_erase_region-erase_blocks}

-- A chip that writes down the addresses of its blocks' erasures and locks.
abbrev driver : FlashDriver (List ℕ)
driver = record {
  erase = λ a c. (pos 0, a ∷ c);
  lock_block = λ a c. (pos 0, a ∷ c);
  unlock_block = λ a c. (pos 0, a ∷ c);
  query_block_lock = λ a c. (pos 0, c);
  enable_vpp = λ c. c;
  disable_vpp = λ c. c;
}

abbrev descs : List FlashDescriptor
descs =
    record { size = 0x8000; num = 2; lockable = false }
    ∷ record { size = 0x20000; num = 2; lockable = true }
    ∷ []

abbrev last : FlashDescriptor
last = record { size = 0; num = 0; lockable = false }

init_flash-find_block_example :
    (init_flash (descs ++ last ∷ []) ≡ some (layout descs 0))
    × (find_block (layout descs 0) 0x10001 ≡ block_number (layout descs 0) 0x10001)
init_flash-find_block_example =
    init_flash-find_block descs last 0x10001 (omega arith, (omega arith, tt)) refl (omega arith)
      (omega arith)

flash_erase_region-erase_blocks_example :
    flash_erase_region driver 3 0x20000 0x8001 [] ≡ some (erase_blocks driver 2 0x20000 [])
flash_erase_region-erase_blocks_example =
    flash_erase_region-erase_blocks driver 2 3 0x20000 0x8001 [] (omega arith) (omega arith)
      (omega arith) (omega arith)

-- A chip that shows its array, or its status: busy until it has been read once, and then ready.
abbrev buffered_bus : Bus (Option Bool)
buffered_bus = record {
  write = λ addr v c. if v == 0xff then none else if v == 0xe8 || v == 0xd0 then some true else c;
  read = λ addr c. elim c [
    | none ↦ (7, none)
    | some busy ↦ if busy then (0, some false) else (0x80, some false)
  ];
}

abbrev array_data : ℕ → ℕ
array_data a = 7

flash_program_buf-Verdict_example :
    (r : Option ℕ) × (c1 : Option Bool) × (stat : ℕ) × (program_loop buffered_bus array_data
        (suc (2 * 40))
        0
        0
        0
        (2 * 40)
        none
      ≡ some (r, c1))
    × (flash_program_buf buffered_bus array_data 0 0 (2 * 40) none ≡ some (stat, none))
    × Verdict buffered_bus array_data r stat 40 0 0 c1
flash_program_buf-Verdict_example =
    flash_program_buf-Verdict buffered_bus array_data 40 0 0 none (λ rom c settled a. refl)
      (omega arith)

-- It waits, programs two buffers, and finds the data.
flash_program_buf_runs :
    flash_program_buf buffered_bus array_data 0 0 (2 * 40) none ≡ some (0, none)
unfolding flash_program_buf program_loop program_turn wait_ready copy_words after_program verify
flash_program_buf_runs = refl

-- A chip that shows the ready bit everywhere.
abbrev bus : Bus ℕ
bus = record { write = λ addr v c. c; read = λ addr c. (128, c) }

abbrev same_data : ℕ → ℕ
same_data a = 128

abbrev other_data : ℕ → ℕ
other_data a = 0

flash_write_region_unverified_example :
    (c' : ℕ) × (flash_write_region bus other_data 0 0 block_size 0 ≡ some (pos 0, c'))
flash_write_region_unverified_example =
    flash_write_region_unverified bus other_data 0 0 0 (λ addr c. refl) (λ c. omega arith)

-- A chip that is busy from the command to program until its status has been read once.
abbrev slow_bus : Bus Bool
slow_bus = record {
  write = λ addr v ready. if v == 0x40 then false else ready;
  read = λ addr ready. (if ready then 128 else 0, true);
}

slow_bus-Settles : Settles slow_bus 2
unfolding polled read_status
slow_bus-Settles addr true = (0, omega arith, refl)
slow_bus-Settles addr false = (1, omega arith, refl)

flash_write_intel16-ReadBack_example :
    (c2 : Bool) × (((flash_write_intel16 slow_bus same_data 2 0x40000 0 true ≡ some (pos 0, c2))
        × (c1 : Bool) × (do_write slow_bus same_data 2 0x40000 0 true ≡ some (pos 0, c1))
        × ReadBack slow_bus same_data 0x40000 0 c1
        × (do_write slow_bus same_data 2 0x40002 2 c1 ≡ some (pos 0, c2))
        × ReadBack slow_bus same_data 0x40002 2 c2)
      ⊎ (flash_write_intel16 slow_bus same_data 2 0x40000 0 true ≡ some (neg eflashpgm, c2)))
flash_write_intel16-ReadBack_example =
    flash_write_intel16-ReadBack slow_bus same_data 2 0x40000 0 true slow_bus-Settles

written : flash_write_intel16 slow_bus same_data 2 0x40000 0 true ≡ some (pos 0, true)
unfolding flash_write_intel16 do_write poll read_status check_write
written = refl
