-- ===== src/Tests/MemtestRuns.antt =====
-- Runs of the memory tests of src/blob/chkmem.c on small memories, sound and broken.
use gen_blob.Base.{
  bit_of, zero, suc, false, none, replicate, ℕ, ◌+◌, ◌*◌, ◌/◌, true, List, [], ◌∷◌, some, ◌≡◌, refl,
  arith, ◌==◌, ==_self, ne→==, if◌then◌else◌, store, u32, sub_u32,
}
use gen_blob.Number.{strtou32}
use gen_blob.Memtest.{
  Ram, skip_loop, skip_blob_mem, fillup, chk_mem_mov_inv, test_addresses, chk_mem_adr_tst,
}
use gen_blob.Memtest.Faults.{StuckAt, chk_mem_mov_inv-StuckAt, chk_mem_adr_tst-Aliased}
use gen_blob.Memtest.Sound.{IsSound}
use gen_blob.Memtest.Hardcore.{
  Errors, push_err, verify_loop, test_verify_success, chk_mem_hardcore, chkmem_ok,
}
use gen_blob.Memtest.Hardcore.Folded.{Folded, chk_mem_hardcore-Folded}
use gen_blob.Memtest.Chkmem.{
  MemoryArea, mov_inv, choose_method, number_arg, show_every, showevery_arg, no_error, chk_mem,
}
use gen_blob.Memtest.Chkmem.Quiet.{AreasFit, chk_mem-IsSound}

abbrev first : ℕ
first = 0xa0300000

-- A memory without faults, as a function.
abbrev sound_ram : Ram (ℕ → ℕ)
sound_ram = record { write = λ a v m b. if b == a then v else m b; read = λ a m. m a }

sound_ram-IsSound : IsSound sound_ram
sound_ram-IsSound = record {
  same = λ a v m. rw (==_self a) refl;
  other = λ a b v m e. rw (ne→== a b e) refl;
}

-- A memory whose second word always reads as 0.
abbrev stuck_ram : Ram (ℕ → ℕ)
stuck_ram = record {
  write = λ a v m b. if b == a then v else m b;
  read = λ a m. if a == 0xa0300004 then 0 else m a;
}

stuck_ram-StuckAt : StuckAt stuck_ram (first + 4 * 1) 3 0
unfolding bit_of
stuck_ram-StuckAt m = refl

chk_mem_mov_inv-StuckAt_example :
    (adr : ℕ) × (m' : ℕ → ℕ) × (chk_mem_mov_inv stuck_ram 3 first
        (first + 4 * 2)
        0x5555aaaa
        (λ a. 0)
      ≡ some (some adr, m'))
chk_mem_mov_inv-StuckAt_example =
    chk_mem_mov_inv-StuckAt stuck_ram 3 2 1 3 0 first 0x5555aaaa (λ a. 0) (omega arith)
      (omega arith) (omega arith) (omega arith) (omega arith) (omega arith) stuck_ram-StuckAt

-- A memory of which all addresses are the same word.
abbrev one_word : Ram ℕ
one_word = record { write = λ a v m. v; read = λ a m. m }

chk_mem_adr_tst-Aliased_example :
    (adr : ℕ) × (m' : ℕ) × (chk_mem_adr_tst one_word 5 first (first + 4 * 4) 0
      ≡ some (some adr, m'))
chk_mem_adr_tst-Aliased_example =
    chk_mem_adr_tst-Aliased one_word 5 4 0 2 first 0 (omega arith) (omega arith) (omega arith)
      (omega arith) (omega arith) (λ e. absurd (omega arith)) (λ m. refl)

-- The failed address is the first one.
adr_tst_fails : chk_mem_adr_tst one_word 5 first (first + 16) 0 ≡ some (some first, first + 12)
unfolding chk_mem_adr_tst fillup test_addresses skip_blob_mem skip_loop
adr_tst_fails = refl

abbrev no_errors : Errors
no_errors = record { list = []; count = 0 }

one_word-Folded :
    Folded one_word
      (sub_u32 (first + 16) (skip_blob_mem first) / 2 / 4)
      (skip_blob_mem first)
      (u32 (skip_blob_mem first + sub_u32 (first + 16) (skip_blob_mem first) / 2))
unfolding skip_blob_mem skip_loop
one_word-Folded = ((λ m. refl), ((λ m. refl), tt))

chk_mem_hardcore-Folded_example :
    (m' : ℕ) × (chk_mem_hardcore one_word (λ p. p) first (first + 16) 0 no_errors
      ≡ some (m', no_errors))
chk_mem_hardcore-Folded_example =
    chk_mem_hardcore-Folded one_word (λ p. p) first (first + 16) 0 no_errors one_word-Folded

-- Two words that differ are both put on the list.
verify_pushes :
    test_verify_success sound_ram 0 8 2 (λ a. a / 12) (record { list = 0 ∷ 0 ∷ 0 ∷ []; count = 0 })
    ≡ some (chkmem_ok, record { list = 4 ∷ 12 ∷ 0 ∷ []; count = 2 })
unfolding test_verify_success verify_loop push_err store
verify_pushes = refl

-- `chkmem 0`
abbrev command_line : List (List ℕ)
command_line = (b'c' ∷ 0 ∷ []) ∷ (b'0' ∷ 0 ∷ []) ∷ []

-- The map that get_memory_map of src/blob/memory.c writes: all RAM, with that of blob.
abbrev unused : MemoryArea
unused = record { start = 0; len = 0; used = false }

abbrev memory_map : List MemoryArea
memory_map = record { start = 0xa0000000; len = 0x2000000; used = true } ∷ replicate 31 unused

unused-AreasFit : (fuel k : ℕ) → AreasFit fuel (replicate k unused)
unused-AreasFit fuel zero = tt
unused-AreasFit fuel (suc k) = ((λ used. absurd (ground (arith, used))), unused-AreasFit fuel k)

method_chosen : choose_method b'0' ≡ some mov_inv
unfolding choose_method
method_chosen = refl

default_verbosity : showevery_arg command_line ≡ some (some 0x4000)
unfolding showevery_arg
default_verbosity = refl

default_count : number_arg command_line 3 1 ≡ some (some 1)
unfolding number_arg
default_count = refl

chk_mem-IsSound_example :
    (m' : ℕ → ℕ) × (chk_mem sound_ram (λ p. p) 0x740001 command_line memory_map (λ a. 7) []
      ≡ some (chkmem_ok, some no_error, m'))
chk_mem-IsSound_example =
    chk_mem-IsSound sound_ram (λ p. p) 0x740001 mov_inv (b'c' ∷ 0 ∷ []) (0 ∷ []) b'0' 0x4000 1 []
      memory_map (λ a. 7) [] sound_ram-IsSound
      ((λ used. (0x740000, omega arith, omega arith, omega arith)), unused-AreasFit 0x740001 31)
      method_chosen tt default_verbosity default_count

-- A verbosity of 32 shifts the 1 out.
verbosity_overflows : showevery_arg ([] ∷ [] ∷ (b'3' ∷ b'2' ∷ 0 ∷ []) ∷ []) ≡ none
unfolding showevery_arg show_every strtou32
verbosity_overflows = refl
