-- ===== src/Memtest/Faults.antt =====
-- What the two methods of src/blob/chkmem.c find: a bit that is stuck, and two addresses that reach
-- the same word.
use gen_blob.Base.{
  ℕ, zero, suc, ◌+◌, ◌-◌, ◌*◌, ◌/◌, ◌^◌, ◌≤◌, ◌<◌, ◌≡◌, ◌≢◌, ◌∙◌, sym, ap, inl, inr, some, refl,
  arith, sub_u32, bit_of,
}
use gen_blob.Memtest.{Ram, not_u32, blob_end, after_bottom_up, chk_mem_mov_inv, chk_mem_adr_tst}
use gen_blob.Memtest.Loops.{
  skip_blob_mem_done, filled, fillup-filled, bottom_up-Judged, top_down-Judged,
  test_addresses_judged,
}

flip : (k w x : ℕ) → k < w → x < 2 ^ w → bit_of k (2 ^ w - 1 - x) ≢ bit_of k x
unfolding bit_of
flip k zero x h b = absurd (omega arith)
flip zero (suc w) x h b =
    let twice : 2 ^ suc w ≡ 2 * 2 ^ w = omega arith in
    λ (e : bit_of 0 (2 ^ suc w - 1 - x) ≡ bit_of 0 x). absurd (omega arith)
flip (suc k) (suc w) x h b =
    let twice : 2 ^ suc w ≡ 2 * 2 ^ w = omega arith in
    let half : (2 ^ suc w - 1 - x) / 2 ≡ 2 ^ w - 1 - x / 2 = omega arith in
    rw half (flip k w (x / 2) (omega arith) (omega arith))

module _ {Mem : Type 0} (ram : Ram Mem) where
  -- Whatever is written, bit `k` of the word at `a` reads as `b`.
  abbrev pub StuckAt : ℕ → ℕ → ℕ → Type 0
  StuckAt a k b = (m : Mem) → bit_of k (ram.read a m) ≡ b

  -- The two addresses reach the same word.
  abbrev pub Aliased : ℕ → ℕ → Type 0
  Aliased a b = (m : Mem) → ram.read a m ≡ ram.read b m

  -- With a bit that is stuck in one of the `n` words behind the memory of blob, the method that
  -- moves the inverse pattern ends and returns a failed address, for every pattern.
  pub chk_mem_mov_inv-StuckAt :
      (fuel n i k b start pattern : ℕ) (m : Mem)
      → n < fuel
      → blob_end ≤ start
      → start + 4 * n < 2 ^ 32
      → i < n
      → k < 32
      → pattern < 2 ^ 32
      → StuckAt (start + 4 * i) k b
      → (adr : ℕ) × (m' : Mem) × (chk_mem_mov_inv ram fuel start (start + 4 * n) pattern m
          ≡ some (some adr, m'))
  unfolding chk_mem_mov_inv after_bottom_up
  chk_mem_mov_inv-StuckAt fuel n i k b start pattern m h l e i_lt k_lt p_lt stuck =
      let filling = fillup-filled ram (λ p. pattern) fuel n start (start + 4 * n) m h refl e in
      let m1 = filled ram (λ p. pattern) n start m in
      let (bad1, m2, up, up_judged) =
        bottom_up-Judged ram pattern fuel n start (start + 4 * n) m1 h refl e in
      let (bad2, m3, down, down_judged) =
        top_down-Judged ram (not_u32 pattern) fuel n start m2 h (omega arith) e in
      let last : sub_u32 (start + 4 * n) 4 ≡ start + 4 * n - 4 = omega arith in
      let skip = skip_blob_mem_done start l in
      elim up_judged [
        | inl (adr, left) ↦ (adr, m2, rw skip (rw filling (rw up (rw left refl))))
        | inr (passed, shown) ↦ elim down_judged [
          | inl (adr, left) ↦
              (adr, m3, rw skip (rw filling (rw up (rw passed (rw last (down ∙ rw left refl))))))
          | inr (passed', shown') ↦
              let (s, is_pattern) = shown i i_lt in
              let (s', is_inverse) = shown' i i_lt in
              absurd (
                flip k 32 pattern k_lt p_lt (
                  ap (bit_of k) (sym is_inverse)
                  ∙ stuck s'
                  ∙ sym (stuck s)
                  ∙ ap (bit_of k) is_pattern))
        ]
      ]

  -- With two addresses among the `n` words that reach the same word, the address test ends and
  -- returns a failed address.
  pub chk_mem_adr_tst-Aliased :
      (fuel n i j start : ℕ) (m : Mem)
      → n < fuel
      → blob_end ≤ start
      → start + 4 * n < 2 ^ 32
      → i < n
      → j < n
      → i ≢ j
      → Aliased (start + 4 * i) (start + 4 * j)
      → (adr : ℕ) × (m' : Mem) × (chk_mem_adr_tst ram fuel start (start + 4 * n) m
          ≡ some (some adr, m'))
  unfolding chk_mem_adr_tst
  chk_mem_adr_tst-Aliased fuel n i j start m h l e i_lt j_lt differ same =
      let filling = fillup-filled ram (λ p. p) fuel n start (start + 4 * n) m h refl e in
      let m1 = filled ram (λ p. p) n start m in
      let (bad, runs, judged) =
        test_addresses_judged ram fuel n start (start + 4 * n) m1 h refl e in
      let skip = skip_blob_mem_done start l in
      elim judged [
        | inl (adr, left) ↦ (adr, m1, rw skip (rw filling (runs ∙ rw left refl)))
        | inr (passed, shown) ↦
            let at_i = shown i i_lt in
            let at_j = shown j j_lt in let alias = same m1 in absurd (differ (omega arith))
      ]
