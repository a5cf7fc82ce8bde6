-- ===== src/Tests/Flash32Runs.antt =====
-- Runs of the driver src/blob/intel32.c.
use gen_blob.Base.{
  ℕ, ◌<◌, ◌||◌, ◌&&◌, ◌==◌, Bool, Option, none, some, ◌≡◌, refl, true, false, if◌then◌else◌, pos,
  neg, arith, test,
}
use gen_blob.Flash.{eflasherase}
use gen_blob.Flash.Program.{Bus}
use gen_blob.Flash.Intel32.{read_both, command, poll_both, flash_erase_intel32}
use gen_blob.Flash.Intel32.Both.{polled_both, SettleBoth, turn, confirmed, flash_erase_intel32-Both}

-- Both chips are busy, then only the second, then neither, and the second shows an error.
abbrev next_status : Option Bool → ℕ × Option Bool
next_status (some true) = (0, some false)
next_status (some false) = (0x00000080, none)
next_status none = (0x00a00080, none)

abbrev failing : Bus (Option Bool)
failing = record {
  write = λ addr value c. if value == 0x00d000d0 then some true else c;
  read = λ addr c. next_status c;
}

abbrev as_is : ℕ → ℕ
as_is x = x

failing-SettleBoth : SettleBoth failing as_is as_is 3
unfolding read_both polled_both command
failing-SettleBoth addr (some true) = (2, omega arith, refl)
failing-SettleBoth addr (some false) = (1, omega arith, refl)
failing-SettleBoth addr none = (0, omega arith, refl)

-- The status that a turn behind the command to confirm reads.
abbrev status_at : ℕ → ℕ
status_at n = (turn failing as_is as_is n 0x20000 (confirmed failing as_is as_is 0x20000 none)).0

flash_erase_intel32-Both_example :
    (n : ℕ) × (n < 3)
    × (test 7 (status_at n) ≡ true)
    × (test 23 (status_at n) ≡ true)
    × ((i : ℕ) → i < n → (test 7 (status_at i) && test 23 (status_at i)) ≡ false)
    × (flash_erase_intel32 failing as_is as_is 3 0x20000 none
        ≡ some (
          if test 5 (status_at n) || test 21 (status_at n) then neg eflasherase else pos 0,
          command failing as_is as_is 0x20000 0x00ff00ff
              (turn failing as_is as_is n 0x20000 (confirmed failing as_is as_is 0x20000 none)).1,
        ))
flash_erase_intel32-Both_example =
    flash_erase_intel32-Both failing as_is as_is 3 0x20000 none failing-SettleBoth

erase_fails : flash_erase_intel32 failing as_is as_is 3 0x20000 none ≡ some (neg eflasherase, none)
unfolding flash_erase_intel32 poll_both command
erase_fails = refl
