-- ===== src/Memtest/Chkmem.antt =====
-- The command `chkmem` of src/blob/chkmem.c: its arguments, the runs of a method over the areas of
-- memory, and the report of the failed addresses. Left out is all other output, with the remainder
-- by `showevery` that decides on it: that is never 0. The fuel is that of the loops of the methods.
pub mod Quiet
use gen_blob.Base.{
  ℕ, zero, suc, ◌+◌, ◌%◌, ◌^◌, Bool, true, false, List, [], ◌∷◌, Option, none, some, ◌==◌, leb, ltb,
  if◌then◌else◌, ℤ, pos, is_neg, u32, length, get_elem?, take, ◌>>=◌,
}
use gen_blob.Number.{strtou32}
use gen_blob.Memtest.{Ram, chk_mem_mov_inv, chk_mem_adr_tst}
use gen_blob.Memtest.Hardcore.{Errors, push_err, max_err, chkmem_ok, chkmem_err, chk_mem_hardcore}

-- memory_area_t
pub record MemoryArea : Type 0 where
  pub start : ℕ
  pub len : ℕ
  pub used : Bool

pub data Method : Type 0 where
  mov_inv adr_tst hardcore : Method

-- The `switch` on the first character of the argument.
unfoldable pub choose_method : ℕ → Option Method
choose_method c =
    if c == b'0'
    then some mov_inv
    else if c == b'1'
    then some adr_tst
    else if c == b'2'
    then some hardcore
    else none

-- What is printed in the end: that there is no error, or the list of ChkMemErr.
pub data Report : Type 0 where
  no_error : Report
  memory_errors : List ℕ → Report

-- ChkMemErr
unfoldable pub report : Errors → Report
report e = if e.count == 0 then no_error else memory_errors (take (e.count % max_err) e.list)

-- An optional number on the command line, or the default; `none` inside where it is not a value.
unfoldable pub number_arg : List (List ℕ) → ℕ → ℕ → Option (Option ℕ)
number_arg argv i default = elim (get_elem? argv i) [
  | none ↦ some (some default)
  | some str ↦ (do (code, value) ← strtou32 str; some (if is_neg code then none else some value))
]

-- `1 << showevery`, which is not defined where the verbosity is 32 or more; with 0 no address is
-- shown.
unfoldable pub show_every : ℕ → Option ℕ
show_every verbosity =
    if verbosity == 0
    then some 0xffffffff
    else if ltb verbosity 32
    then some (2 ^ verbosity)
    else none

-- `showevery`, that is CHKMEM_SHOWEVERY without an argument; `none` inside where that is not a value.
unfoldable pub showevery_arg : List (List ℕ) → Option (Option ℕ)
showevery_arg argv = elim (get_elem? argv 2) [
  | none ↦ some (some 0x4000)
  | some str ↦ (do
    (code, value) ← strtou32 str
    let shifted = (do showevery ← show_every value; some (some showevery))
    if is_neg code then some none else shifted)
]

module _ {Mem : Type 0} (ram : Ram Mem) (seen : ℕ → ℕ) (fuel : ℕ) where
  -- A method over an area: the failed address, and the memory and the list afterwards.
  unfoldable pub run_method : Method → ℕ → ℕ → Mem → Errors → Option (Option ℕ × Mem × Errors)
  run_method mov_inv start end m e = do
    (bad, m') ← chk_mem_mov_inv ram fuel start end 0x5555aaaa m
    some (bad, m', e)
  run_method adr_tst start end m e = do
    (bad, m') ← chk_mem_adr_tst ram fuel start end m
    some (bad, m', e)
  run_method hardcore start end m e = do
    (m', e') ← chk_mem_hardcore ram seen start end m e
    some (none, m', e')

  unfoldable pub record_bad : Option ℕ → Errors → Option Errors
  record_bad none e = some e
  record_bad (some adr) e = push_err adr e

  unfoldable pub run_areas : Method → List MemoryArea → Mem → Errors → Option (Mem × Errors)
  run_areas method [] m e = some (m, e)
  run_areas method (area ∷ areas) m e =
      let skipped = run_areas method areas m e in
      let tested = (do
        (bad, m', e') ← run_method method area.start (u32 (area.start + area.len)) m e
        e'' ← record_bad bad e'
        run_areas method areas m' e'') in
      if area.used then tested else skipped

  unfoldable pub repeat_areas : ℕ → Method → List MemoryArea → Mem → Errors → Option (Mem × Errors)
  repeat_areas zero method areas m e = some (m, e)
  repeat_areas (suc repcount) method areas m e = do
    (m', e') ← run_areas method areas m e
    repeat_areas repcount method areas m' e'

  -- The runs of the chosen method, if the argument names one.
  unfoldable pub run_chosen :
      Option Method → ℕ → List MemoryArea → Mem → List ℕ → Option (ℤ × Option Report × Mem)
  run_chosen none repcount areas m errlist = some (chkmem_err, none, m)
  run_chosen (some method) repcount areas m errlist = do
    (m', e) ← repeat_areas repcount method areas m (record { list = errlist; count = 0 })
    some (chkmem_ok, some (report e), m')

  -- What ChkMem does once the verbosity and the repeat count are read.
  unfoldable pub test_memory :
      List (List ℕ) → ℕ → List MemoryArea → Mem → List ℕ → Option (ℤ × Option Report × Mem)
  test_memory argv repcount areas m errlist = do
    name ← get_elem? argv 1
    c ← get_elem? name 0
    run_chosen (choose_method c) repcount areas m errlist

  -- The returned code with the report and the memory. `errlist` is what the list of failed
  -- addresses still holds.
  unfoldable pub chk_mem :
      List (List ℕ) → List MemoryArea → Mem → List ℕ → Option (ℤ × Option Report × Mem)
  chk_mem argv areas m errlist =
      let run = (do
        showevery ← showevery_arg argv
        elim showevery [
          | none ↦ some (chkmem_err, none, m)
          | some _ ↦ (do
            repcount ← number_arg argv 3 1
            elim repcount [
              | none ↦ some (chkmem_err, none, m)
              | some n ↦ test_memory argv n areas m errlist
            ])
        ]) in
      if ltb (length argv) 2 then some (chkmem_err, none, m) else run
