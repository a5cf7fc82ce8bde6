-- ===== src/Flash/Intel16/Polling.antt =====
-- The loops of src/blob/intel16.c that poll the chip end when the chip shows that it is ready.
use gen_blob.Base.{ℕ, zero, suc, ◌<◌, some, true, ◌≡◌, refl, arith, Bool-cases, inl, inr}
use gen_blob.Flash.Program.{Bus}
use gen_blob.Flash.Intel16.{is_ready, read_status, poll}

module _ {Chip : Type 0} (bus : Bus Chip) where
  -- The chip behind `n` reads of the status.
  unfoldable pub polled : ℕ → ℕ → Chip → Chip
  polled zero addr c = c
  polled (suc n) addr c = polled n addr (read_status bus addr c).1

  -- The chip shows itself ready within `fuel` reads of the status.
  abbrev pub Settles : ℕ → Type 0
  Settles fuel =
      (addr : ℕ) (c : Chip)
      → (n : ℕ) × (n < fuel) × (is_ready (read_status bus addr (polled n addr c)).0 ≡ true)

  poll-ends :
      (n m addr : ℕ) (c : Chip)
      → n < m
      → is_ready (read_status bus addr (polled n addr c)).0 ≡ true
      → (r : ℕ × Chip) × (poll bus m addr c ≡ some r)
  unfolding poll polled
  poll-ends n zero addr c l h = absurd (omega arith)
  poll-ends zero (suc m) addr c l h = (read_status bus addr c, rw (h) refl)
  poll-ends (suc n) (suc m) addr c l h =
      let rest = poll-ends n m addr (read_status bus addr c).1 (omega arith) h in
      elim (Bool-cases (is_ready (read_status bus addr c).0)) [
        | inl e ↦ (read_status bus addr c, rw (e) refl)
        | inr e ↦ rw (poll, e) rest
      ]

  -- On a chip that settles, the loop that polls ends within the reads that the chip takes.
  pub poll-total :
      (fuel addr : ℕ) (c : Chip) → Settles fuel → (r : ℕ × Chip) × (poll bus fuel addr c ≡ some r)
  poll-total fuel addr c settles =
      let (n, less, ready) = settles addr c in poll-ends n fuel addr c less ready
