-- ===== src/Flash/Program/Verify.antt =====
-- flash_program_buf ends, and what its answer says of the halfwords behind it.
use gen_blob.Base.{
  ℕ, zero, suc, true, ◌+◌, ◌-◌, ◌*◌, ◌^◌, ◌<◌, false, Option, none, some, ◌≡◌, ◌↔◌, ◌≢◌, refl,
  arith, ◌==◌, u16, u32, Bool-cases, Option-cases, inl, inr, ◌⊎◌, sym, subst,
}
use gen_blob.Flash.Program.{
  Bus, ready, timeout, wait_ready, copy_words, program_turn, program_loop, verify, after_program,
  flash_program_buf,
}

module _ {Chip : Type 0} (bus : Bus Chip) (data_at : ℕ → ℕ) where
  -- `n` halfwords of the chip read as those of the data.
  abbrev pub Matches : ℕ → ℕ → ℕ → Chip → Type 0
  Matches zero addr src c = Unit
  Matches (suc n) addr src c =
      ((bus.read addr c).0 ≡ data_at src) × Matches n (u32 (addr + 2)) (u32 (src + 2)) c

  -- The answer tells the comparison, or is the status after a timeout.
  abbrev pub Verdict : Option ℕ → ℕ → ℕ → ℕ → ℕ → Chip → Type 0
  Verdict none stat n addr src c = (stat ≡ 0) ↔ Matches n addr src c
  Verdict (some s) stat n addr src c = stat ≡ s

  -- Reads do not change the chip.
  abbrev pub Keeps : Chip → Type 0
  Keeps c = (a : ℕ) → (bus.read a c).1 ≡ c

  -- A chip that showed itself ready when its status was read at `rom`, behind this read.
  abbrev pub Settled : ℕ → Chip → Type 0
  Settled rom c = (c0 : Chip) × (ready (bus.read rom c0).0 ≡ true) × ((bus.read rom c0).1 ≡ c)

  -- What the command 0xff does: where the last read of the status showed the chip ready, the chip
  -- then shows its array, and reads do not change it.
  abbrev pub ArrayKeeps : Type 0
  ArrayKeeps = (rom : ℕ) (c : Chip) → Settled rom c → Keeps (bus.write rom 0xff c)

  -- The chip was ready, and then set to show its array.
  abbrev ShowsArray : ℕ → Chip → Type 0
  ShowsArray rom c = (x : Chip) × Settled rom x × (c ≡ bus.write rom 0xff x)

  wait_ready-Settled :
      (rom n : ℕ) (c : Chip)
      → (wait_ready bus data_at rom n c).0 ≡ true
      → Settled rom (wait_ready bus data_at rom n c).1
  unfolding wait_ready
  wait_ready-Settled rom zero c h = ground (arith, h)
  wait_ready-Settled rom (suc n) c h = elim (Bool-cases (ready (bus.read rom c).0)) [
    | inl e ↦ rw e (c, e, refl)
    | inr e ↦ rw e (wait_ready-Settled rom n (bus.read rom c).1 (rw e at h))
  ]

  program_turn-ShowsArray :
      (rom addr src : ℕ) (c : Chip)
      → (program_turn bus data_at rom addr src c).0 ≡ none
      → ShowsArray rom (program_turn bus data_at rom addr src c).1
  unfolding program_turn
  program_turn-ShowsArray rom addr src c h =
      let start = bus.write rom 0xe8 c in
      let started = wait_ready bus data_at rom timeout start in
      let filled =
        bus.write rom 0xd0 (copy_words bus data_at 32 addr src (bus.write rom 31 started.1)) in
      let programmed = wait_ready bus data_at rom timeout filled in
      elim (Bool-cases started.0) [
        | inr e ↦ ground (arith, rw e at h)
        | inl e ↦ elim (Bool-cases programmed.0) [
          | inr f ↦ ground (arith, rw (e, f) at h)
          | inl f ↦ rw (e, f) (programmed.1, wait_ready-Settled rom timeout filled f, refl)
        ]
      ]

  -- Where no turn failed, the chip shows its array, or there was no turn.
  abbrev Programmed : ℕ → ℕ → Chip → Option ℕ × Chip → Type 0
  Programmed rom len c r = r.0 ≡ none → ((len ≡ 0) × (r.1 ≡ c)) ⊎ ShowsArray rom r.1

  after_turn :
      (rom len : ℕ) (c : Chip) (r : Option ℕ × Chip)
      → ShowsArray rom c
      → Programmed rom len c r
      → r.0 ≡ none
      → ShowsArray rom r.1
  after_turn rom len c r shows rest h = elim (rest h) [
    | inl (_, same) ↦ subst (ShowsArray rom) (sym same) shows
    | inr shown ↦ shown
  ]

  program_loop-Programmed :
      (fuel rom addr src len : ℕ) (c : Chip)
      → len < fuel
      → (r : Option ℕ × Chip) × (program_loop bus data_at fuel rom addr src len c ≡ some r)
        × Programmed rom len c r
  unfolding program_loop
  program_loop-Programmed zero rom addr src len c h = absurd (omega arith)
  program_loop-Programmed (suc fuel) rom addr src zero c h =
      ((none, c), refl, λ e. inl (refl, refl))
  program_loop-Programmed (suc fuel) rom addr src (suc n) c h =
      let turn = program_turn bus data_at rom addr src c in
      let (r, runs, rest) =
        program_loop-Programmed fuel rom (u32 (addr + 64)) (u32 (src + 64)) (suc n - 64) turn.1
          (omega arith) in
      elim (Option-cases turn.0) [
        | inl e ↦
            let shows = program_turn-ShowsArray rom addr src c e in
            (
              r,
              rw (program_loop, e) runs,
              λ none_too. inr (after_turn rom (suc n - 64) turn.1 r shows rest none_too),
            )
        | inr (stat, e) ↦
            ((some stat, turn.1), rw (program_loop, e) refl, λ other. ground (arith, other))
      ]

  verify_iff :
      (fuel n addr src : ℕ) (c : Chip)
      → Keeps c
      → 2 * n < fuel
      → 2 * n < 2 ^ 16
      → (stat : ℕ) × (verify bus data_at fuel addr src (2 * n) c ≡ some (stat, c))
        × ((stat ≡ 0) ↔ Matches n addr src c)
  unfolding verify
  verify_iff zero n addr src c keep h s = absurd (omega arith)
  verify_iff (suc fuel) zero addr src c keep h s = (0, refl, ((λ e. tt), λ e. refl))
  verify_iff (suc fuel) (suc n) addr src c keep h s =
      let (stat, runs, agree) =
        verify_iff fuel n (u32 (addr + 2)) (u32 (src + 2)) c keep (omega arith) (omega arith) in
      let less : 2 * suc n - 2 ≡ 2 * n = omega arith in
      let more : 2 * suc n == 0 ≡ false = ground arith in
      elim (Bool-cases ((bus.read addr c).0 == data_at src)) [
        | inl e ↦
            let same : (bus.read addr c).0 ≡ data_at src = ground (arith, e) in
            (stat, rw (more, e, keep addr, less) runs, ((λ z. (same, agree.0 z)), λ m. agree.1 m.1))
        | inr e ↦
            let differ : (bus.read addr c).0 ≢ data_at src = ground (arith, e) in
            (
              u16 (2 * suc n),
              rw (more, e, keep addr) refl,
              ((λ z. absurd (omega arith)), λ m. absurd (differ m.0)),
            )
      ]

  judged :
      (n addr src : ℕ) (r : Option ℕ × Chip) (c : Chip)
      → ArrayKeeps
      → 2 * n < 2 ^ 16
      → Programmed addr (2 * n) c r
      → (stat : ℕ) × (after_program bus data_at addr src (2 * n) r ≡ some (stat, r.1))
        × Verdict r.0 stat n addr src r.1
  unfolding after_program verify
  judged n addr src (some x, c1) c array s programmed = (x, refl, refl)
  judged zero addr src (none, c1) c array s programmed = (0, refl, ((λ e. tt), λ e. refl))
  judged (suc n) addr src (none, c1) c array s programmed = elim (programmed refl) [
    | inl (empty, _) ↦ absurd (omega arith)
    | inr (x, settled, at) ↦
        verify_iff (suc (2 * suc n)) (suc n) addr src c1
          (subst Keeps (sym at) (array addr x settled)) (omega arith) s
  ]

  -- For a chip that reads do not change once it was ready and got the command to show its array,
  -- and an even length below 2 ^ 16: flash_program_buf returns, with the status of a timeout, or with
  -- 0 exactly if all the halfwords of the chip, as the loop over the buffers left it, read as the
  -- data; and it has then set the chip to show its array.
  pub flash_program_buf-Verdict :
      (n addr src : ℕ) (c : Chip)
      → ArrayKeeps
      → 2 * n < 2 ^ 16
      → (r : Option ℕ) × (c1 : Chip) × (stat : ℕ) × (program_loop bus data_at
            (suc (2 * n))
            addr
            addr
            src
            (2 * n)
            (bus.write addr 0x50 c)
          ≡ some (r, c1))
        × (flash_program_buf bus data_at addr src (2 * n) c ≡ some (stat, bus.write addr 0xff c1))
        × Verdict r stat n addr src c1
  unfolding flash_program_buf
  flash_program_buf-Verdict n addr src c array s =
      let cleared = bus.write addr 0x50 c in
      let (r, runs, programmed) =
        program_loop-Programmed (suc (2 * n)) addr addr src (2 * n) cleared (omega arith) in
      let (stat, after, verdict) = judged n addr src r cleared array s programmed in
      (r.0, r.1, stat, runs, rw (runs, after) refl, verdict)
