-- ===== src/Memtest/Hardcore/Folded.antt =====
-- What ChkMemHardcore of src/blob/chkmem.c cannot find.
use gen_blob.Base.{
  ℕ, zero, suc, ◌+◌, ◌/◌, ◌%◌, ◌≡◌, Option, some, refl, u32, sub_u32, ℤ, ==_self, bit_or, bit_and,
  ◌==◌, if◌then◌else◌, ◌>>=◌,
}
use gen_blob.Memtest.{Ram, skip_blob_mem}
use gen_blob.Memtest.Hardcore.{
  Errors, verify_loop, test_verify_success, fill_pair, rounds, test_or_comparison,
  test_and_comparison, test_seqinc_comparison, test_solidbits_comparison,
  test_checkerboard_comparison, test_blockseq_comparison, test_walkbits_comparison,
  test_bitspread_comparison, test_bitflip_comparison, chkmem_ok, chk_mem_hardcore, update_pair,
  alternate, make_32_from_8, walk, spread, flipped, test_stuck_address,
}

module _ {Mem : Type 0} (ram : Ram Mem) where
  -- The words from `p1` on are those from `p2` on, `n` of them, whatever was written.
  abbrev pub Folded : ℕ → ℕ → ℕ → Type 0
  Folded zero p1 p2 = Unit
  Folded (suc n) p1 p2 =
      ((m : Mem) → ram.read p1 m ≡ ram.read p2 m) × Folded n (u32 (p1 + 4)) (u32 (p2 + 4))

  verify_loop-Folded :
      (n p1 p2 : ℕ) (m : Mem) (e : Errors) → Folded n p1 p2 → verify_loop ram n p1 p2 m e ≡ some e
  unfolding verify_loop
  verify_loop-Folded zero p1 p2 m e folded = refl
  verify_loop-Folded (suc n) p1 p2 m e (same, rest) =
      rw (same m, ==_self (ram.read p2 m))
        (verify_loop-Folded n (u32 (p1 + 4)) (u32 (p2 + 4)) m e rest)

  rounds-Folded :
      (value : ℕ → ℕ → ℕ) (n j bp1 bp2 count : ℕ) (m : Mem) (e : Errors)
      → Folded count bp1 bp2
      → (m' : Mem) × (rounds ram value n j bp1 bp2 count m e ≡ some (chkmem_ok, m', e))
  unfolding rounds test_verify_success
  rounds-Folded value zero j bp1 bp2 count m e folded = (m, refl)
  rounds-Folded value (suc n) j bp1 bp2 count m e folded =
      let m1 = fill_pair ram (value j) count 0 bp1 bp2 m in
      let (m', rest) = rounds-Folded value n (j + 1) bp1 bp2 count m1 e folded in
      (m', rw (verify_loop-Folded count bp1 bp2 m1 e folded) rest)

  -- The test ends and adds nothing to the list.
  abbrev Keeps : Errors → (Mem → Errors → Option (ℤ × Mem × Errors)) → Type 0
  Keeps e test = (m : Mem) → (code : ℤ) × (m' : Mem) × (test m e ≡ some (code, m', e))

  verified :
      (fill : Mem → Mem) (p1 p2 n : ℕ) (e : Errors)
      → Folded n p1 p2
      → Keeps e (λ m e. do
        (code, e') ← test_verify_success ram p1 p2 n (fill m) e
        some (code, fill m, e'))
  unfolding test_verify_success
  verified fill p1 p2 n e folded m =
      (chkmem_ok, fill m, rw (verify_loop-Folded n p1 p2 (fill m) e folded) refl)

  rounds-Keeps :
      (value : ℕ → ℕ → ℕ) (k p1 p2 n : ℕ) (e : Errors)
      → Folded n p1 p2
      → Keeps e (rounds ram value k 0 p1 p2 n)
  rounds-Keeps value k p1 p2 n e folded m =
      let (m', runs) = rounds-Folded value k 0 p1 p2 n m e folded in (chkmem_ok, m', runs)

  -- Where an address line is stuck, so that the second half of an area is the first again,
  -- ChkMemHardcore ends with the list of failed addresses as it was.
  pub chk_mem_hardcore-Folded :
      (seen : ℕ → ℕ) (start end : ℕ) (m : Mem) (e : Errors)
      → Folded
          (sub_u32 end (skip_blob_mem start) / 2 / 4)
          (skip_blob_mem start)
          (u32 (skip_blob_mem start + sub_u32 end (skip_blob_mem start) / 2))
      → (m' : Mem) × (chk_mem_hardcore ram seen start end m e ≡ some (m', e))
  unfolding chk_mem_hardcore test_or_comparison test_and_comparison test_seqinc_comparison
      test_solidbits_comparison test_checkerboard_comparison test_blockseq_comparison
      test_walkbits_comparison test_bitspread_comparison test_bitflip_comparison
  chk_mem_hardcore-Folded seen start end m e folded =
      let p1 = skip_blob_mem start in
      let count = sub_u32 end p1 / 2 in
      let p2 = u32 (p1 + count) in
      let n = count / 4 in
      let (c1, m1, r1) =
        verified (update_pair ram (λ x. bit_or x 0xdeadbeef) n p1 p2) p1 p2 n e folded m in
      let (c2, m2, r2) =
        verified (update_pair ram (λ x. bit_and x 0xdeadbeef) n p1 p2) p1 p2 n e folded m1 in
      let (c3, m3, r3) =
        verified (fill_pair ram (λ i. u32 (i + 0xdeadbeef)) n 0 p1 p2) p1 p2 n e folded m2 in
      let (c4, m4, r4) =
        rounds-Keeps (λ j. alternate (if j % 2 == 0 then 0x55555555 else 0xaaaaaaaa)) 64 p1 p2 n e
          folded m3 in
      let (c5, m5, r5) =
        rounds-Keeps (λ j. alternate (if j % 2 == 0 then 0xffffffff else 0)) 64 p1 p2 n e folded
          m4 in
      let (c6, m6, r6) = rounds-Keeps (λ j i. make_32_from_8 j) 256 p1 p2 n e folded m5 in
      let (c7, m7, r7) = rounds-Keeps (λ j i. walk 0 j) 64 p1 p2 n e folded m6 in
      let (c8, m8, r8) = rounds-Keeps (λ j i. walk 1 j) 64 p1 p2 n e folded m7 in
      let (c9, m9, r9) = rounds-Keeps spread 64 p1 p2 n e folded m8 in
      let (c10, m10, r10) =
        rounds-Keeps (λ j. alternate (flipped (j / 8) (j % 8))) 256 p1 p2 n e folded m9 in
      (
        (test_stuck_address ram seen p1 n m10).1,
        rw r1 (rw r2 (rw r3 (rw r4 (rw r5 (rw r6 (rw r7 (rw r8 (rw r9 (rw r10 refl))))))))),
      )
