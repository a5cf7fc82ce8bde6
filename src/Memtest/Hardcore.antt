-- ===== src/Memtest/Hardcore.antt =====
-- The third method of src/blob/chkmem.c, ChkMemHardcore, and the list of failed addresses. What is
-- not defined in C is taken as the processor has it: a shift by 32 or more gives 0.
pub mod Folded
use gen_blob.Base.{
  ℕ, zero, suc, ◌+◌, ◌-◌, ◌*◌, ◌/◌, ◌%◌, ◌^◌, Bool, true, false, List, Option, none, some, ltb,
  ◌==◌, if◌then◌else◌, ℤ, pos, negsuc, u32, sub_u32, ◌<<<◌, bit_and, bit_or, store, ◌>>=◌,
}
use gen_blob.Memtest.{Ram, not_u32, skip_blob_mem}

-- CHKMEM_MAXERR
abbrev pub max_err : ℕ
max_err = 64

-- `chkmem_errlist` and `chkmem_errs`
pub record Errors : Type 0 where
  pub list : List ℕ
  pub count : ℕ

-- CHKMEM_PUSHERR
unfoldable pub push_err : ℕ → Errors → Option Errors
push_err adr e = do
  list ← store e.list (e.count % max_err) adr
  some (record { list = list; count = e.count + 1 })

-- CHKMEM_OK and CHKMEM_ERR
abbrev pub chkmem_ok : ℤ
chkmem_ok = pos 0

abbrev pub chkmem_err : ℤ
chkmem_err = negsuc 0

-- `== CHKMEM_ERR`
abbrev pub is_chkmem_err : ℤ → Bool
is_chkmem_err (negsuc zero) = true
is_chkmem_err _ = false

-- MAKE32FROM8
abbrev pub make_32_from_8 : ℕ → ℕ
make_32_from_8 j = bit_or (bit_or (bit_or j (j <<< 8)) (j <<< 16)) (u32 (j <<< 24))

-- `(i % 2) == 0 ? q : ~q`
abbrev pub alternate : ℕ → ℕ → ℕ
alternate q i = if i % 2 == 0 then q else not_u32 q

-- `0x00000001 << k`
abbrev pub one_bit : ℕ → ℕ
one_bit k = u32 (1 <<< k)

-- The word of the walking bit in round `j`, up and back down.
abbrev pub walk : ℕ → ℕ → ℕ
walk mode j =
    let q = if ltb j 32 then one_bit j else one_bit (64 - j - 1) in
    if mode == 0 then q else not_u32 q

abbrev pub spread : ℕ → ℕ → ℕ
spread j i =
    let q =
      if ltb j 32
      then bit_or (one_bit j) (one_bit (j + 2))
      else bit_or (one_bit (63 - j)) (one_bit (65 - j)) in
    alternate q i

-- The word of test_bitflip_comparison in round `k`, once it was inverted `j + 1` times.
abbrev pub flipped : ℕ → ℕ → ℕ
flipped k j = if j % 2 == 0 then not_u32 (one_bit k) else one_bit k

module _ {Mem : Type 0} (ram : Ram Mem) where
  unfoldable pub verify_loop : ℕ → ℕ → ℕ → Mem → Errors → Option Errors
  verify_loop zero p1 p2 m e = some e
  verify_loop (suc n) p1 p2 m e =
      let differ = (do
        e1 ← push_err p1 e
        e2 ← push_err p2 e1
        verify_loop n (u32 (p1 + 4)) (u32 (p2 + 4)) m e2) in
      let rest = verify_loop n (u32 (p1 + 4)) (u32 (p2 + 4)) m e in
      if ram.read p1 m == ram.read p2 m then rest else differ

  unfoldable pub test_verify_success : ℕ → ℕ → ℕ → Mem → Errors → Option (ℤ × Errors)
  test_verify_success bp1 bp2 count m e = do
    e' ← verify_loop count bp1 bp2 m e
    some (chkmem_ok, e')

  -- `MEM(p) op= q` through both halves.
  unfoldable pub update_pair : (ℕ → ℕ) → ℕ → ℕ → ℕ → Mem → Mem
  update_pair op zero p1 p2 m = m
  update_pair op (suc n) p1 p2 m =
      let m1 = ram.write p1 (op (ram.read p1 m)) m in
      let m2 = ram.write p2 (op (ram.read p2 m1)) m1 in
      update_pair op n (u32 (p1 + 4)) (u32 (p2 + 4)) m2

  -- `MEM(p1++) = MEM(p2++) = …` through both halves, `n` words from index `i` on.
  unfoldable pub fill_pair : (ℕ → ℕ) → ℕ → ℕ → ℕ → ℕ → Mem → Mem
  fill_pair value zero i p1 p2 m = m
  fill_pair value (suc n) i p1 p2 m =
      fill_pair value n (i + 1) (u32 (p1 + 4)) (u32 (p2 + 4))
        (ram.write p1 (value i) (ram.write p2 (value i) m))

  -- `n` rounds from round `j` on, each with its words, and left where the words differ.
  unfoldable pub rounds : (ℕ → ℕ → ℕ) → ℕ → ℕ → ℕ → ℕ → ℕ → Mem → Errors → Option (ℤ × Mem × Errors)
  rounds value zero j bp1 bp2 count m e = some (chkmem_ok, m, e)
  rounds value (suc n) j bp1 bp2 count m e = do
    let m' = fill_pair (value j) count 0 bp1 bp2 m
    (code, e') ← test_verify_success bp1 bp2 count m' e
    let rest = rounds value n (j + 1) bp1 bp2 count m' e'
    if is_chkmem_err code then some (chkmem_err, m', e') else rest

  module _ (bp1 bp2 count : ℕ) where
    unfoldable pub test_or_comparison : Mem → Errors → Option (ℤ × Mem × Errors)
    test_or_comparison m e = do
      let m' = update_pair (λ x. bit_or x 0xdeadbeef) count bp1 bp2 m
      (code, e') ← test_verify_success bp1 bp2 count m' e
      some (code, m', e')

    unfoldable pub test_and_comparison : Mem → Errors → Option (ℤ × Mem × Errors)
    test_and_comparison m e = do
      let m' = update_pair (λ x. bit_and x 0xdeadbeef) count bp1 bp2 m
      (code, e') ← test_verify_success bp1 bp2 count m' e
      some (code, m', e')

    unfoldable pub test_seqinc_comparison : Mem → Errors → Option (ℤ × Mem × Errors)
    test_seqinc_comparison m e = do
      let m' = fill_pair (λ i. u32 (i + 0xdeadbeef)) count 0 bp1 bp2 m
      (code, e') ← test_verify_success bp1 bp2 count m' e
      some (code, m', e')

    unfoldable pub test_solidbits_comparison : Mem → Errors → Option (ℤ × Mem × Errors)
    test_solidbits_comparison =
        rounds (λ j. alternate (if j % 2 == 0 then 0xffffffff else 0)) 64 0 bp1 bp2 count

    unfoldable pub test_checkerboard_comparison : Mem → Errors → Option (ℤ × Mem × Errors)
    test_checkerboard_comparison =
        rounds (λ j. alternate (if j % 2 == 0 then 0x55555555 else 0xaaaaaaaa)) 64 0 bp1 bp2 count

    unfoldable pub test_blockseq_comparison : Mem → Errors → Option (ℤ × Mem × Errors)
    test_blockseq_comparison = rounds (λ j i. make_32_from_8 j) 256 0 bp1 bp2 count

    unfoldable pub test_walkbits_comparison : ℕ → Mem → Errors → Option (ℤ × Mem × Errors)
    test_walkbits_comparison mode = rounds (λ j i. walk mode j) 64 0 bp1 bp2 count

    unfoldable pub test_bitspread_comparison : Mem → Errors → Option (ℤ × Mem × Errors)
    test_bitspread_comparison = rounds spread 64 0 bp1 bp2 count

    -- The 8 rounds for each of the 32 bits, as 256.
    unfoldable pub test_bitflip_comparison : Mem → Errors → Option (ℤ × Mem × Errors)
    test_bitflip_comparison = rounds (λ j. alternate (flipped (j / 8) (j % 8))) 256 0 bp1 bp2 count

  -- `((j + i) % 2) == 0 ? (u32) p1 : ~((u32) p1)`
  abbrev pub own_address : ℕ → ℕ → ℕ → ℕ
  own_address j i p = if (j + i) % 2 == 0 then p else not_u32 p

  -- C does not say whether the value beside `MEM(p1++)` is of the old or of the new `p1`: `seen` is
  -- what the compiler makes of it.
  unfoldable pub write_addresses : (ℕ → ℕ) → ℕ → ℕ → ℕ → ℕ → Mem → Mem
  write_addresses seen zero j i p m = m
  write_addresses seen (suc n) j i p m =
      write_addresses seen n j (i + 1) (u32 (p + 4)) (ram.write p (own_address j i (seen p)) m)

  unfoldable pub verify_addresses : ℕ → ℕ → ℕ → ℕ → Mem → Bool
  verify_addresses zero j i p m = true
  verify_addresses (suc n) j i p m =
      let rest = verify_addresses n j (i + 1) (u32 (p + 4)) m in
      if ram.read p m == own_address j i p then rest else false

  unfoldable pub stuck_rounds : (ℕ → ℕ) → ℕ → ℕ → ℕ → ℕ → Mem → ℤ × Mem
  stuck_rounds seen zero j bp1 count m = (chkmem_ok, m)
  stuck_rounds seen (suc n) j bp1 count m =
      let m' = write_addresses seen count j 0 bp1 m in
      let rest = stuck_rounds seen n (j + 1) bp1 count m' in
      if verify_addresses count j 0 bp1 m' then rest else (chkmem_err, m')

  unfoldable pub test_stuck_address : (ℕ → ℕ) → ℕ → ℕ → Mem → ℤ × Mem
  test_stuck_address seen bp1 count m = stuck_rounds seen 16 0 bp1 (u32 (count <<< 1)) m

  -- The tests one after the other; what they return is not looked at. The code returns 0 and sets
  -- the failed address to 0.
  unfoldable pub chk_mem_hardcore : (ℕ → ℕ) → ℕ → ℕ → Mem → Errors → Option (Mem × Errors)
  chk_mem_hardcore seen start end m e = do
    let p1 = skip_blob_mem start
    let count = sub_u32 end p1 / 2
    let p2 = u32 (p1 + count)
    let words = count / 4
    (_, m1, e1) ← test_or_comparison p1 p2 words m e
    (_, m2, e2) ← test_and_comparison p1 p2 words m1 e1
    (_, m3, e3) ← test_seqinc_comparison p1 p2 words m2 e2
    (_, m4, e4) ← test_checkerboard_comparison p1 p2 words m3 e3
    (_, m5, e5) ← test_solidbits_comparison p1 p2 words m4 e4
    (_, m6, e6) ← test_blockseq_comparison p1 p2 words m5 e5
    (_, m7, e7) ← test_walkbits_comparison p1 p2 words 0 m6 e6
    (_, m8, e8) ← test_walkbits_comparison p1 p2 words 1 m7 e7
    (_, m9, e9) ← test_bitspread_comparison p1 p2 words m8 e8
    (_, m10, e10) ← test_bitflip_comparison p1 p2 words m9 e9
    some ((test_stuck_address seen p1 words m10).1, e10)
