-- ===== src/Flash/Intel16/Stored.antt =====
-- flash_write_intel16 of src/blob/intel16.c answers success only when both halfwords read back.
use gen_blob.Base.{
  ℕ, ◌+◌, Option, some, ◌≡◌, refl, arith, ◌==◌, u16, u32, ℤ, pos, neg, Bool-cases, ◌⊎◌, inl, inr,
}
use gen_blob.Flash.{eflashpgm}
use gen_blob.Flash.Program.{Bus}
use gen_blob.Flash.Intel16.{pgm_err, check_write, do_write, flash_write_intel16}
use gen_blob.Flash.Intel16.Polling.{Settles, poll-total}

module _ {Chip : Type 0} (bus : Bus Chip) (data_at : ℕ → ℕ) where
  -- The chip as it is after a read of the halfword at `dst`, which gave the one at `src`.
  abbrev pub ReadBack : ℕ → ℕ → Chip → Type 0
  ReadBack dst src c =
      (shown : Chip) × (u16 (bus.read dst shown).0 ≡ data_at src) × ((bus.read dst shown).1 ≡ c)

  -- An answer is success, with the halfword read back, or a failure of programming.
  abbrev pub Wrote : ℕ → ℕ → Option (ℤ × Chip) → Type 0
  Wrote dst src answer =
      (c : Chip) × (((answer ≡ some (pos 0, c)) × ReadBack dst src c)
        ⊎ (answer ≡ some (neg eflashpgm, c)))

  check_write-Wrote :
      (result dst src : ℕ) (c : Chip)
      → Wrote dst src (some (check_write bus data_at result dst src c))
  unfolding check_write
  check_write-Wrote result dst src c = elim (Bool-cases (pgm_err result)) [
    | inl e ↦ (c, inr (rw (e) refl))
    | inr e ↦ elim (Bool-cases (u16 (bus.read dst c).0 == data_at src)) [
      | inl f ↦ ((bus.read dst c).1, inl (rw (e, f) refl, (c, ground (arith, f), refl)))
      | inr f ↦ ((bus.read dst c).1, inr (rw (e, f) refl))
    ]
  ]

  do_write-Wrote :
      (fuel dst src : ℕ) (c : Chip)
      → Settles bus fuel
      → Wrote dst src (do_write bus data_at fuel dst src c)
  unfolding do_write
  do_write-Wrote fuel dst src c settles =
      let ((result, c'), runs) =
        poll-total bus fuel dst
          (bus.write dst (data_at src) (bus.write dst 0x40 (bus.write dst 0x50 c))) settles in
      rw (runs) (check_write-Wrote result dst src (bus.write dst 0xff c'))

  -- On a chip that shows itself ready within `fuel` reads of its status, flash_write_intel16 returns:
  -- 0 after both halfwords, the second written when the first was, read back as the data, or
  -- -EFLASHPGM.
  pub flash_write_intel16-ReadBack :
      (fuel dst src : ℕ) (c : Chip)
      → Settles bus fuel
      → (c2 : Chip) × (((flash_write_intel16 bus data_at fuel dst src c ≡ some (pos 0, c2))
            × (c1 : Chip) × (do_write bus data_at fuel dst src c ≡ some (pos 0, c1))
            × ReadBack dst src c1
            × (do_write bus data_at fuel (u32 (dst + 2)) (u32 (src + 2)) c1 ≡ some (pos 0, c2))
            × ReadBack (u32 (dst + 2)) (u32 (src + 2)) c2)
          ⊎ (flash_write_intel16 bus data_at fuel dst src c ≡ some (neg eflashpgm, c2)))
  unfolding flash_write_intel16
  flash_write_intel16-ReadBack fuel dst src c settles =
      let (c1, first) = do_write-Wrote fuel dst src c settles in
      let (c2, second) = do_write-Wrote fuel (u32 (dst + 2)) (u32 (src + 2)) c1 settles in
      elim first [
        | inr e ↦ (c1, inr (rw (e) refl))
        | inl (e, back) ↦ elim second [
          | inr f ↦ (c2, inr (rw (e, f) refl))
          | inl (f, back') ↦ (c2, inl (rw (e, f) refl, c1, e, back, f, back'))
        ]
      ]
