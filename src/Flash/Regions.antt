-- ===== src/Flash/Regions.antt =====
-- Erasing, locking and unlocking regions of the flash.
use gen_blob.Base.{
  ℕ, zero, suc, ◌+◌, ◌*◌, ◌^◌, ◌≤◌, ◌<◌, Bool, true, false, List, [], ◌∷◌, some, ◌≡◌, refl, ap, ◌∙◌,
  arith, ltb, if◌then◌else◌, ℤ, pos, neg, is_neg, u32, add_u32, Bool-cases, inl, inr, get_elem?,
  get_elem?-take, get_elem?-drop, drop, ◌-◌,
}
use gen_blob.Flash.{
  FlashBlock, FlashDriver, erase_loop, flash_erase_region, address_range_to_block_range, blocks_of,
  all_lockable, lock_range, do_flash_lock, eflashpgm,
}

module _ {Chip : Type 0} (driver : FlashDriver Chip) where
  open driver use {erase, lock_block, unlock_block, enable_vpp, disable_vpp}

  -- Blocks of 0x20000 bytes are erased one after the other, up to the first error.
  abbrev pub erase_blocks : ℕ → ℕ → Chip → ℤ × Chip
  erase_blocks zero start c = (pos 0, disable_vpp c)
  erase_blocks (suc n) start c =
      let (rv, c') = erase start c in
      let rest = erase_blocks n (start + 0x20000) c' in
      if is_neg rv then (rv, disable_vpp c') else rest

  erase_loop-erase_blocks :
      (n fuel start end : ℕ) (c : Chip)
      → n ≤ fuel
      → end ≤ start + 0x20000 * n
      → start + 0x20000 * n < end + 0x20000
      → start + 0x20000 * n < 2 ^ 32
      → erase_loop driver fuel start end c ≡ some (erase_blocks n start c)
  unfolding erase_loop
  erase_loop-erase_blocks zero zero start end c enough covers tight small = ground arith
  erase_loop-erase_blocks zero (suc fuel) start end c enough covers tight small = ground arith
  erase_loop-erase_blocks (suc n) zero start end c enough covers tight small = absurd (omega arith)
  erase_loop-erase_blocks (suc n) (suc fuel) start end c enough covers tight small =
      let goes_on : ltb start end ≡ true = ground arith in
      let next : add_u32 start 0x20000 ≡ start + 0x20000 = omega arith in
      let rest =
        erase_loop-erase_blocks n fuel (start + 0x20000) end (erase start c).1 (omega arith)
          (omega arith) (omega arith) (omega arith) in
      elim (Bool-cases (is_neg (erase start c).0)) [
        | inl failed ↦ rw (goes_on, failed) refl
        | inr erased ↦ rw (goes_on, erased, next, rest) refl
      ]

  -- A region that ends below 2 ^ 32 - 0x20000: flash_erase_region returns, for as much fuel as the
  -- region has blocks of 0x20000 bytes, counted up; it has enabled VPP and erased just these blocks,
  -- in order, up to the first error of the driver, which it returns, and has then disabled VPP.
  pub flash_erase_region-erase_blocks :
      (n fuel start nwords : ℕ) (c : Chip)
      → n ≤ fuel
      → 4 * nwords ≤ 0x20000 * n
      → 0x20000 * n < 4 * nwords + 0x20000
      → start + 0x20000 * n < 2 ^ 32
      → flash_erase_region driver fuel start nwords c ≡ some (erase_blocks n start (enable_vpp c))
  unfolding flash_erase_region
  flash_erase_region-erase_blocks n fuel start nwords c enough covers tight small =
      let end : u32 (start + 4 * nwords) ≡ start + 4 * nwords = omega arith in
      ap (λ e. erase_loop driver fuel start e (enable_vpp c)) end
      ∙ erase_loop-erase_blocks n fuel start (start + 4 * nwords) (enable_vpp c) enough
          (omega arith) (omega arith) (omega arith)

blocks_of-get_elem? :
    (blocks : List FlashBlock) (sb eib i : ℕ)
    → sb ≤ i
    → i ≤ eib
    → get_elem? (blocks_of blocks sb eib) (i - sb) ≡ get_elem? blocks i
blocks_of-get_elem? blocks sb eib i lower upper =
    let short : i - sb < eib + 1 - sb = omega arith in
    let back : sb + (i - sb) ≡ i = omega arith in
    get_elem?-take (eib + 1 - sb) (i - sb) (drop sb blocks) short
    ∙ get_elem?-drop sb (i - sb) blocks
    ∙ ap (get_elem? blocks) back

unlockable :
    (blocks : List FlashBlock) (i : ℕ) {b : FlashBlock}
    → get_elem? blocks i ≡ some b
    → b.lockable ≡ false
    → all_lockable blocks ≡ false
unfolding all_lockable
unlockable [] i there h = absurd (cc)
unlockable (b' ∷ blocks) zero {b} there h =
    let same : b' ≡ b = cc in
    let h' : b'.lockable ≡ false = ap (λ x. x.lockable) same ∙ h in rw h' refl
unlockable (b' ∷ blocks) (suc i) there h =
    let rest = unlockable blocks i there h in
    elim (Bool-cases b'.lockable) [ inl yes' ↦ rw (yes', rest) refl | inr no' ↦ rw no' refl ]

module _ {Chip : Type 0} (driver : FlashDriver Chip) where
  -- A region with a block that cannot be locked is neither locked nor unlocked: the code is
  -- -EFLASHPGM and the driver is not called.
  pub do_flash_lock_unlockable :
      (blocks : List FlashBlock) (start nwords sb eib i : ℕ) {b : FlashBlock} (lock : Bool)
      (c : Chip)
      → address_range_to_block_range blocks start (u32 (4 * nwords)) ≡ some (sb, eib)
      → sb ≤ i
      → i ≤ eib
      → get_elem? blocks i ≡ some b
      → b.lockable ≡ false
      → do_flash_lock driver blocks start nwords lock c ≡ (neg eflashpgm, c)
  unfolding do_flash_lock lock_range
  do_flash_lock_unlockable blocks start nwords sb eib i lock c range lower upper there h =
      let refused : all_lockable (blocks_of blocks sb eib) ≡ false =
        unlockable (blocks_of blocks sb eib) (i - sb)
          (blocks_of-get_elem? blocks sb eib i lower upper ∙ there) h in
      rw (range, do_flash_lock, refused) refl
