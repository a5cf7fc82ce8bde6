-- ===== src/Memtest/Chkmem/Quiet.antt =====
-- The command `chkmem` of src/blob/chkmem.c on a memory without faults.
use Prim.Native.Nat.{max}
use gen_blob.Base.{
  ℕ, zero, suc, ◌+◌, ◌*◌, ◌^◌, ◌≤◌, ◌<◌, ◌≡◌, subst, true, false, List, [], ◌∷◌, none, some, refl,
  arith, u32, ltb, length, Bool-cases, inl, inr,
}
use gen_blob.Memtest.{Ram, blob_end}
use gen_blob.Memtest.Loops.{skip_blob_mem-max}
use gen_blob.Memtest.Sound.{IsSound, chk_mem_mov_inv-IsSound, chk_mem_adr_tst-IsSound}
use gen_blob.Memtest.Hardcore.{Errors, chkmem_ok}
use gen_blob.Memtest.Chkmem.{
  MemoryArea, Method, mov_inv, adr_tst, choose_method, no_error, report, number_arg, showevery_arg,
  run_method, record_bad, run_areas, repeat_areas, test_memory, run_chosen, chk_mem,
}

-- A used area is, behind the memory of blob, of whole words, and ends before 2 ^ 32.
abbrev pub Fits : ℕ → MemoryArea → Type 0
Fits fuel area =
    area.used ≡ true
    → (n : ℕ) × (n < fuel)
      × (max blob_end area.start + 4 * n ≡ area.start + area.len)
      × (area.start + area.len < 2 ^ 32)

abbrev pub AreasFit : ℕ → List MemoryArea → Type 0
AreasFit fuel [] = Unit
AreasFit fuel (area ∷ areas) = Fits fuel area × AreasFit fuel areas

-- The methods that move the inverse pattern and that test the addresses.
abbrev pub IsSimple : Method → Type 0
IsSimple mov_inv = Unit
IsSimple adr_tst = Unit
IsSimple Method.hardcore = ⊥

module _ {Mem : Type 0} (ram : Ram Mem) (seen : ℕ → ℕ) (fuel : ℕ) where
  run_method-IsSound :
      (method : Method) (n start : ℕ) (m : Mem) (e : Errors)
      → IsSound ram
      → IsSimple method
      → n < fuel
      → 4 ≤ max blob_end start
      → max blob_end start + 4 * n < 2 ^ 32
      → (m' : Mem) × (run_method ram seen fuel method start (max blob_end start + 4 * n) m e
          ≡ some (none, m', e))
  unfolding run_method
  run_method-IsSound mov_inv n start m e sound simple h l b =
      let (m', runs) =
        chk_mem_mov_inv-IsSound ram fuel n start (max blob_end start) 0x5555aaaa m sound h
          (skip_blob_mem-max start) l b in
      (m', rw runs refl)
  run_method-IsSound adr_tst n start m e sound simple h l b =
      let (m', runs) =
        chk_mem_adr_tst-IsSound ram fuel n start (max blob_end start) m sound h
          (skip_blob_mem-max start) l b in
      (m', rw runs refl)
  run_method-IsSound Method.hardcore n start m e sound simple h l b = absurd simple

  run_area-IsSound :
      (method : Method) (n start len : ℕ) (m : Mem) (e : Errors)
      → IsSound ram
      → IsSimple method
      → n < fuel
      → max blob_end start + 4 * n ≡ start + len
      → start + len < 2 ^ 32
      → (m' : Mem) × (run_method ram seen fuel method start (u32 (start + len)) m e
          ≡ some (none, m', e))
  run_area-IsSound method n start len m e sound simple h words b =
      let at : max blob_end start + 4 * n ≡ u32 (start + len) = omega arith in
      subst
        (λ end. (m' : Mem) × (run_method ram seen fuel method start end m e ≡ some (none, m', e)))
        at (run_method-IsSound method n start m e sound simple h (omega arith) (omega arith))

  run_areas-IsSound :
      (method : Method) (areas : List MemoryArea) (m : Mem) (e : Errors)
      → IsSound ram
      → IsSimple method
      → AreasFit fuel areas
      → (m' : Mem) × (run_areas ram seen fuel method areas m e ≡ some (m', e))
  unfolding run_areas record_bad
  run_areas-IsSound method [] m e sound simple fit = (m, refl)
  run_areas-IsSound method (area ∷ areas) m e sound simple (fits, rest) =
      elim (Bool-cases area.used) [
        | inl f ↦
            let (n, h, words, b) = fits f in
            let (m1, runs) =
              run_area-IsSound method n area.start area.len m e sound simple h words b in
            let (m', others) = run_areas-IsSound method areas m1 e sound simple rest in
            (m', rw f (rw runs others))
        | inr f ↦
            let (m', others) = run_areas-IsSound method areas m e sound simple rest in
            (m', rw f others)
      ]

  repeat_areas-IsSound :
      (k : ℕ) (method : Method) (areas : List MemoryArea) (m : Mem) (e : Errors)
      → IsSound ram
      → IsSimple method
      → AreasFit fuel areas
      → (m' : Mem) × (repeat_areas ram seen fuel k method areas m e ≡ some (m', e))
  unfolding repeat_areas
  repeat_areas-IsSound zero method areas m e sound simple fit = (m, refl)
  repeat_areas-IsSound (suc k) method areas m e sound simple fit =
      let (m1, runs) = run_areas-IsSound method areas m e sound simple fit in
      let (m', rest) = repeat_areas-IsSound k method areas m1 e sound simple fit in
      (m', rw runs rest)

  -- On a memory without faults, with areas of which the used ones are, behind the memory of blob, of
  -- fewer than `fuel` whole words and end before 2 ^ 32, `chkmem` with method 0 or 1, with a
  -- verbosity below 32 or none and a number for the repeat count or none returns 0 and reports that
  -- there is no error.
  pub chk_mem-IsSound :
      (method : Method) (name word : List ℕ) (c every repcount : ℕ) (args : List (List ℕ))
      (areas : List MemoryArea) (m : Mem) (errlist : List ℕ)
      → IsSound ram
      → AreasFit fuel areas
      → choose_method c ≡ some method
      → IsSimple method
      → showevery_arg (name ∷ (c ∷ word) ∷ args) ≡ some (some every)
      → number_arg (name ∷ (c ∷ word) ∷ args) 3 1 ≡ some (some repcount)
      → (m' : Mem) × (chk_mem ram seen fuel (name ∷ (c ∷ word) ∷ args) areas m errlist
          ≡ some (chkmem_ok, some no_error, m'))
  unfolding chk_mem test_memory run_chosen report
  chk_mem-IsSound method name word c every repcount args areas m errlist sound fit chosen simple h
        k =
      let (m', runs) =
        repeat_areas-IsSound repcount method areas m (record { list = errlist; count = 0 }) sound
          simple fit in
      let enough : ltb (length (name ∷ (c ∷ word) ∷ args)) 2 ≡ false = ground arith in
      let tested : test_memory ram seen fuel (name ∷ (c ∷ word) ∷ args) repcount areas m errlist
          ≡ some (chkmem_ok, some no_error, m') =
        rw chosen (rw runs refl) in
      (m', rw enough (rw h (rw k tested)))
