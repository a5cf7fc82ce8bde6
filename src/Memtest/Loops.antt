-- ===== src/Memtest/Loops.antt =====
-- The loops of src/blob/chkmem.c over `n` words of a memory: they end, and what their answer shows.
use Prim.Native.Nat.{max}
use gen_blob.Base.{
  ℕ, zero, suc, ◌+◌, ◌-◌, ◌*◌, ◌^◌, ◌≤◌, ◌<◌, ◌≡◌, ◌∙◌, ◌⊎◌, inl, inr, true, false, Option, none,
  some, refl, arith, Bool-cases, ltb, leb, sym, ◌==◌, u32, sub_u32,
}
use gen_blob.Memtest.{
  Ram, not_u32, blob_end, skip_loop, skip_blob_mem, fillup, bottom_up, top_down, test_addresses,
}

skip_loop_done : (fuel start : ℕ) → blob_end ≤ start → skip_loop fuel start ≡ start
unfolding skip_loop
skip_loop_done zero start h = refl
skip_loop_done (suc fuel) start h = ground arith

-- Behind the memory of blob nothing is skipped.
pub skip_blob_mem_done : (start : ℕ) → blob_end ≤ start → skip_blob_mem start ≡ start
unfolding skip_blob_mem
skip_blob_mem_done start h = skip_loop_done (blob_end - start) start h

skip_loop_reaches : (fuel start : ℕ) → start + fuel ≡ blob_end → skip_loop fuel start ≡ blob_end
unfolding skip_loop
skip_loop_reaches zero start h = omega arith
skip_loop_reaches (suc fuel) start h =
    let below : ltb start blob_end ≡ true = ground arith in
    rw below (skip_loop_reaches fuel (start + 1) (omega arith))

-- The start of an area that reaches into the memory of blob is moved behind it.
pub skip_blob_mem-max : (start : ℕ) → skip_blob_mem start ≡ max blob_end start
unfolding skip_blob_mem
skip_blob_mem-max start = elim (Bool-cases (leb blob_end start)) [
  | inl h ↦
      let behind : blob_end ≤ start = ground (arith, h) in
      let same : max blob_end start ≡ start = omega arith in
      skip_loop_done (blob_end - start) start behind ∙ sym same
  | inr h ↦
      let before : start < blob_end = ground (arith, h) in
      let same : max blob_end start ≡ blob_end = omega arith in
      skip_loop_reaches (blob_end - start) start (omega arith) ∙ sym same
]

module _ {Mem : Type 0} (ram : Ram Mem) where
  -- The memory with `n` words filled from `p` on.
  unfoldable pub filled : (ℕ → ℕ) → ℕ → ℕ → Mem → Mem
  filled value zero p m = m
  filled value (suc n) p m = filled value n (p + 4) (ram.write p (value p) m)

  pub fillup-filled :
      (value : ℕ → ℕ) (fuel n p end : ℕ) (m : Mem)
      → n < fuel
      → p + 4 * n ≡ end
      → end < 2 ^ 32
      → fillup ram value fuel p end m ≡ some (filled value n p m)
  unfolding fillup filled
  fillup-filled value zero n p end m h e b = absurd (omega arith)
  fillup-filled value (suc fuel) zero p end m h e b =
      let over : ltb p end ≡ false = ground arith in rw over refl
  fillup-filled value (suc fuel) (suc n) p end m h e b =
      let more : ltb p end ≡ true = ground arith in
      let step : u32 (p + 4) ≡ p + 4 = omega arith in
      rw (more, step)
        (fillup-filled value fuel n (p + 4) end (ram.write p (value p) m) (omega arith)
          (omega arith) b)

  -- Each of `n` words from `p` on has once been read as `v`.
  abbrev pub Shown : ℕ → ℕ → ℕ → Type 0
  Shown v n p = (i : ℕ) → i < n → (m : Mem) × (ram.read (p + 4 * i) m ≡ v)

  -- The loop was left at an address, or all `n` words have been read as `v`.
  abbrev pub Judged : ℕ → ℕ → ℕ → Option (Option ℕ × Mem) → Type 0
  Judged v n p answer =
      (bad : Option ℕ) × (m : Mem) × (answer ≡ some (bad, m))
      × (((adr : ℕ) × (bad ≡ some adr)) ⊎ ((bad ≡ none) × Shown v n p))

  Shown-suc : (v n p : ℕ) (m : Mem) → ram.read p m ≡ v → Shown v n (p + 4) → Shown v (suc n) p
  Shown-suc v n p m first rest zero h = let e : p + 4 * 0 ≡ p = omega arith in (m, rw e first)
  Shown-suc v n p m first rest (suc i) h =
      let (m', shown) = rest i (omega arith) in
      let e : p + 4 * suc i ≡ p + 4 + 4 * i = omega arith in (m', rw e shown)

  Shown-last : (v n p : ℕ) (m : Mem) → ram.read (p + 4 * n) m ≡ v → Shown v n p → Shown v (suc n) p
  Shown-last v n p m last rest i h = elim (Bool-cases (ltb i n)) [
    | inl e ↦ rest i (ground arith)
    | inr e ↦ let same : i ≡ n = ground arith in (m, rw same last)
  ]

  pub bottom_up-Judged :
      (pattern fuel n p end : ℕ) (m : Mem)
      → n < fuel
      → p + 4 * n ≡ end
      → end < 2 ^ 32
      → Judged pattern n p (bottom_up ram fuel p end pattern m)
  unfolding bottom_up
  bottom_up-Judged pattern zero n p end m h e b = absurd (omega arith)
  bottom_up-Judged pattern (suc fuel) zero p end m h e b =
      let over : ltb p end ≡ false = ground arith in
      (none, m, rw over refl, inr (refl, λ i l. absurd (omega arith)))
  bottom_up-Judged pattern (suc fuel) (suc n) p end m h e b =
      let more : ltb p end ≡ true = ground arith in
      let step : u32 (p + 4) ≡ p + 4 = omega arith in
      let (bad, m', runs, judged) =
        bottom_up-Judged pattern fuel n (p + 4) end (ram.write p (not_u32 pattern) m) (omega arith)
          (omega arith) b in
      elim (Bool-cases (ram.read p m == pattern)) [
        | inr f ↦ (some p, m, rw (more, f) refl, inl (p, refl))
        | inl f ↦
            let turn : bottom_up ram (suc fuel) p end pattern m
                ≡ bottom_up ram fuel (p + 4) end pattern (ram.write p (not_u32 pattern) m) =
              rw (more, f, step) refl in
            (
              bad,
              m',
              turn ∙ runs,
              elim judged [
                | inl left ↦ inl left
                | inr (passed, shown) ↦
                    inr (passed, Shown-suc pattern n p m (ground (arith, f)) shown)
              ],
            )
      ]

  pub top_down-Judged :
      (pattern fuel n start : ℕ) (m : Mem)
      → n < fuel
      → 4 ≤ start
      → start + 4 * n < 2 ^ 32
      → Judged pattern n start (top_down ram fuel (start + 4 * n - 4) start pattern m)
  unfolding top_down
  top_down-Judged pattern zero n start m h l b = absurd (omega arith)
  top_down-Judged pattern (suc fuel) zero start m h l b =
      let over : ltb (start + 4 * 0 - 4) start ≡ true = ground arith in
      (none, m, rw over refl, inr (refl, λ i l. absurd (omega arith)))
  top_down-Judged pattern (suc fuel) (suc n) start m h l b =
      let at : start + 4 * suc n - 4 ≡ start + 4 * n = omega arith in
      let more : ltb (start + 4 * n) start ≡ false = ground arith in
      let step : sub_u32 (start + 4 * n) 4 ≡ start + 4 * n - 4 = omega arith in
      let (bad, m', runs, judged) =
        top_down-Judged pattern fuel n start (ram.write (start + 4 * n) (not_u32 pattern) m)
          (omega arith) l (omega arith) in
      elim (Bool-cases (ram.read (start + 4 * n) m == pattern)) [
        | inr f ↦ (some (start + 4 * n), m, rw (at, more, f) refl, inl (start + 4 * n, refl))
        | inl f ↦
            let turn : top_down ram (suc fuel) (start + 4 * suc n - 4) start pattern m
                ≡ top_down ram fuel (start + 4 * n - 4) start pattern
                    (ram.write (start + 4 * n) (not_u32 pattern) m) =
              rw (at, more, f, step) refl in
            (
              bad,
              m',
              turn ∙ runs,
              elim judged [
                | inl left ↦ inl left
                | inr (passed, shown) ↦
                    inr (passed, Shown-last pattern n start m (ground (arith, f)) shown)
              ],
            )
      ]

  shown_behind :
      (n p : ℕ) (m : Mem)
      → ram.read p m ≡ p
      → ((i : ℕ) → i < n → ram.read (p + 4 + 4 * i) m ≡ p + 4 + 4 * i)
      → (i : ℕ) → i < suc n
      → ram.read (p + 4 * i) m ≡ p + 4 * i
  shown_behind n p m first rest zero l = let e : p + 4 * 0 ≡ p = omega arith in rw e first
  shown_behind n p m first rest (suc i) l =
      let e : p + 4 * suc i ≡ p + 4 + 4 * i = omega arith in rw e (rest i (omega arith))

  -- The loop over the addresses is left at one, or the memory shows its address at all `n` words.
  pub test_addresses_judged :
      (fuel n p end : ℕ) (m : Mem)
      → n < fuel
      → p + 4 * n ≡ end
      → end < 2 ^ 32
      → (bad : Option ℕ) × (test_addresses ram fuel p end m ≡ some (bad, m))
        × (((adr : ℕ) × (bad ≡ some adr))
            ⊎ ((bad ≡ none) × ((i : ℕ) → i < n → ram.read (p + 4 * i) m ≡ p + 4 * i)))
  unfolding test_addresses
  test_addresses_judged zero n p end m h e b = absurd (omega arith)
  test_addresses_judged (suc fuel) zero p end m h e b =
      let over : ltb p end ≡ false = ground arith in
      (none, rw over refl, inr (refl, λ i l. absurd (omega arith)))
  test_addresses_judged (suc fuel) (suc n) p end m h e b =
      let more : ltb p end ≡ true = ground arith in
      let step : u32 (p + 4) ≡ p + 4 = omega arith in
      let (bad, runs, judged) =
        test_addresses_judged fuel n (p + 4) end m (omega arith) (omega arith) b in
      elim (Bool-cases (ram.read p m == p)) [
        | inr f ↦ (some p, rw (more, f) refl, inl (p, refl))
        | inl f ↦
            let turn : test_addresses ram (suc fuel) p end m
                ≡ test_addresses ram fuel (p + 4) end m =
              rw (more, f, step) refl in
            (
              bad,
              turn ∙ runs,
              elim judged [
                | inl left ↦ inl left
                | inr (passed, shown) ↦ inr (passed, shown_behind n p m (ground (arith, f)) shown)
              ],
            )
      ]
