-- ===== src/Memtest/Sound.antt =====
-- A memory without faults passes the two methods of src/blob/chkmem.c.
use gen_blob.Base.{
  ℕ, zero, suc, ◌+◌, ◌-◌, ◌*◌, ◌^◌, ◌≤◌, ◌<◌, ◌≡◌, ◌≢◌, ◌∙◌, true, false, ltb, ==_self, none, some,
  refl, arith, u32, sub_u32,
}
use gen_blob.Memtest.{
  Ram, not_u32, skip_blob_mem, bottom_up, top_down, after_bottom_up, chk_mem_mov_inv,
  test_addresses, chk_mem_adr_tst,
}
use gen_blob.Memtest.Loops.{filled, fillup-filled}

module _ {Mem : Type 0} (ram : Ram Mem) where
  -- A word reads as it was written last, and a write changes no other word.
  pub record IsSound : Type 0 where
    pub same : (a v : ℕ) (m : Mem) → ram.read a (ram.write a v m) ≡ v
    pub other : (a b v : ℕ) (m : Mem) → a ≢ b → ram.read a (ram.write b v m) ≡ ram.read a m

  -- The `n` words from `p` on read as the values.
  abbrev pub Holds : (ℕ → ℕ) → ℕ → ℕ → Mem → Type 0
  Holds value zero p m = Unit
  Holds value (suc n) p m = (ram.read p m ≡ value p) × Holds value n (p + 4) m

  filled-before :
      IsSound
      → (value : ℕ → ℕ) (n p a : ℕ) (m : Mem) → a < p
      → ram.read a (filled ram value n p m) ≡ ram.read a m
  unfolding filled
  filled-before sound value zero p a m h = refl
  filled-before sound value (suc n) p a m h =
      filled-before sound value n (p + 4) a (ram.write p (value p) m) (omega arith)
      ∙ sound.other a p (value p) m (λ e. absurd (omega arith))

  filled-Holds :
      IsSound → (value : ℕ → ℕ) (n p : ℕ) (m : Mem) → Holds value n p (filled ram value n p m)
  unfolding filled
  filled-Holds sound value zero p m = tt
  filled-Holds sound value (suc n) p m = (
    filled-before sound value n (p + 4) p (ram.write p (value p) m) (omega arith)
        ∙ sound.same p (value p) m,
    filled-Holds sound value n (p + 4) (ram.write p (value p) m),
  )

  Holds-write :
      IsSound
      → (value : ℕ → ℕ) (n p a v : ℕ) (m : Mem) → a < p
      → Holds value n p m
      → Holds value n p (ram.write a v m)
  Holds-write sound value zero p a v m h holds = tt
  Holds-write sound value (suc n) p a v m h (first, rest) = (
    sound.other p a v m (λ e. absurd (omega arith)) ∙ first,
    Holds-write sound value n (p + 4) a v m (omega arith) rest,
  )

  bottom_up_passes :
      IsSound
      → (pattern fuel n p end : ℕ) (m : Mem) → n < fuel
      → p + 4 * n ≡ end
      → end < 2 ^ 32
      → Holds (λ a. pattern) n p m
      → bottom_up ram fuel p end pattern m ≡ some (none, filled ram (λ a. not_u32 pattern) n p m)
  unfolding bottom_up filled
  bottom_up_passes sound pattern zero n p end m h e b holds = absurd (omega arith)
  bottom_up_passes sound pattern (suc fuel) zero p end m h e b holds =
      let over : ltb p end ≡ false = ground arith in rw over refl
  bottom_up_passes sound pattern (suc fuel) (suc n) p end m h e b (first, rest) =
      let more : ltb p end ≡ true = ground arith in
      let step : u32 (p + 4) ≡ p + 4 = omega arith in
      rw (more, first, ==_self pattern, step)
        (bottom_up_passes sound pattern fuel n (p + 4) end (ram.write p (not_u32 pattern) m)
          (omega arith) (omega arith) b
          (Holds-write sound (λ a. pattern) n (p + 4) p (not_u32 pattern) m (omega arith) rest))

  -- The same words, by their index, for the loop that goes down.
  abbrev HoldsAt : ℕ → ℕ → ℕ → Mem → Type 0
  HoldsAt v n p m = (i : ℕ) → i < n → ram.read (p + 4 * i) m ≡ v

  Holds-HoldsAt : (v n p : ℕ) (m : Mem) → Holds (λ a. v) n p m → HoldsAt v n p m
  Holds-HoldsAt v zero p m holds i h = absurd (omega arith)
  Holds-HoldsAt v (suc n) p m (first, rest) zero h =
      let e : p + 4 * 0 ≡ p = omega arith in rw e first
  Holds-HoldsAt v (suc n) p m (first, rest) (suc i) h =
      let e : p + 4 * suc i ≡ p + 4 + 4 * i = omega arith in
      rw e (Holds-HoldsAt v n (p + 4) m rest i (omega arith))

  top_down_passes :
      IsSound
      → (pattern fuel n start : ℕ) (m : Mem) → n < fuel
      → 4 ≤ start
      → start + 4 * n < 2 ^ 32
      → HoldsAt pattern n start m
      → (m' : Mem) × (top_down ram fuel (start + 4 * n - 4) start pattern m ≡ some (none, m'))
  unfolding top_down
  top_down_passes sound pattern zero n start m h l b holds = absurd (omega arith)
  top_down_passes sound pattern (suc fuel) zero start m h l b holds =
      let over : ltb (start + 4 * 0 - 4) start ≡ true = ground arith in (m, rw over refl)
  top_down_passes sound pattern (suc fuel) (suc n) start m h l b holds =
      let at : start + 4 * suc n - 4 ≡ start + 4 * n = omega arith in
      let more : ltb (start + 4 * n) start ≡ false = ground arith in
      let step : sub_u32 (start + 4 * n) 4 ≡ start + 4 * n - 4 = omega arith in
      let turn : top_down ram (suc fuel) (start + 4 * suc n - 4) start pattern m
          ≡ top_down ram fuel (start + 4 * n - 4) start pattern
              (ram.write (start + 4 * n) (not_u32 pattern) m) =
        rw (at, more, holds n (omega arith), ==_self pattern, step) refl in
      let (m', runs) =
        top_down_passes sound pattern fuel n start (ram.write (start + 4 * n) (not_u32 pattern) m)
          (omega arith) l (omega arith)
          (λ i i_lt.
            sound.other (start + 4 * i) (start + 4 * n) (not_u32 pattern) m
              (λ e. absurd (omega arith))
            ∙ holds i (omega arith)) in
      (m', turn ∙ runs)

  -- On a memory without faults the method that moves the inverse pattern ends and finds no failed
  -- address, for every area of words behind the memory of blob, or behind a part of that.
  pub chk_mem_mov_inv-IsSound :
      (fuel n from start pattern : ℕ) (m : Mem)
      → IsSound
      → n < fuel
      → skip_blob_mem from ≡ start
      → 4 ≤ start
      → start + 4 * n < 2 ^ 32
      → (m' : Mem) × (chk_mem_mov_inv ram fuel from (start + 4 * n) pattern m ≡ some (none, m'))
  unfolding chk_mem_mov_inv after_bottom_up
  chk_mem_mov_inv-IsSound fuel n from start pattern m sound h skips l e =
      let filling = fillup-filled ram (λ p. pattern) fuel n start (start + 4 * n) m h refl e in
      let m1 = filled ram (λ p. pattern) n start m in
      let up =
        bottom_up_passes sound pattern fuel n start (start + 4 * n) m1 h refl e
          (filled-Holds sound (λ p. pattern) n start m) in
      let m2 = filled ram (λ a. not_u32 pattern) n start m1 in
      let (m3, down) = top_down_passes sound (not_u32 pattern) fuel n start m2 h l e (
        Holds-HoldsAt (not_u32 pattern) n start m2
          (filled-Holds sound (λ a. not_u32 pattern) n start m1)) in
      let last : sub_u32 (start + 4 * n) 4 ≡ start + 4 * n - 4 = omega arith in
      (m3, rw (skips) (rw filling (rw up (rw last down))))

  addresses_pass :
      (fuel n p end : ℕ) (m : Mem)
      → n < fuel
      → p + 4 * n ≡ end
      → end < 2 ^ 32
      → Holds (λ a. a) n p m
      → test_addresses ram fuel p end m ≡ some (none, m)
  unfolding test_addresses
  addresses_pass zero n p end m h e b holds = absurd (omega arith)
  addresses_pass (suc fuel) zero p end m h e b holds =
      let over : ltb p end ≡ false = ground arith in rw over refl
  addresses_pass (suc fuel) (suc n) p end m h e b (first, rest) =
      let more : ltb p end ≡ true = ground arith in
      let step : u32 (p + 4) ≡ p + 4 = omega arith in
      rw (more, first, ==_self p, step)
        (addresses_pass fuel n (p + 4) end m (omega arith) (omega arith) b rest)

  -- On a memory without faults the address test ends and finds no failed address.
  pub chk_mem_adr_tst-IsSound :
      (fuel n from start : ℕ) (m : Mem)
      → IsSound
      → n < fuel
      → skip_blob_mem from ≡ start
      → 4 ≤ start
      → start + 4 * n < 2 ^ 32
      → (m' : Mem) × (chk_mem_adr_tst ram fuel from (start + 4 * n) m ≡ some (none, m'))
  unfolding chk_mem_adr_tst
  chk_mem_adr_tst-IsSound fuel n from start m sound h skips l e =
      let m1 = filled ram (λ p. p) n start m in
      (
        m1,
        rw (skips) (
            rw (fillup-filled ram (λ p. p) fuel n start (start + 4 * n) m h refl e) (
              addresses_pass fuel n start (start + 4 * n) m1 h refl e
                (filled-Holds sound (λ p. p) n start m))),
      )
