-- ===== src/Tests/DebugRuns.antt =====
-- Runs of the commands of src/blob/debug.c.
use gen_blob.Base.{ℕ, ◌%◌, List, [], ◌∷◌, ◌≡◌, refl, arith, inl}
use gen_blob.Number.{strtou32}
use gen_blob.Loader.Memory.{Memory, word_at}
use gen_blob.Debug.{
  ok, half, number, first_char, check_width, change, write_word, poke, peek, cmd_memcpy, bit_change,
  call, optional,
}
use gen_blob.Debug.Words.{limit}
use gen_blob.Debug.PokePeek.{peek-poke}
use gen_blob.Debug.Copies.{Copied, cmd_memcpy-Copied}
use gen_blob.Debug.WrongWord.{bit_change_misses}

abbrev name : List ℕ
name = b'x' ∷ 0 ∷ []

-- 8, 256 and 70000
abbrev eight : List ℕ
eight = b'8' ∷ 0 ∷ []

abbrev far : List ℕ
far = b'2' ∷ b'5' ∷ b'6' ∷ 0 ∷ []

abbrev many : List ℕ
many = b'7' ∷ b'0' ∷ b'0' ∷ b'0' ∷ b'0' ∷ 0 ∷ []

abbrev type_half : List ℕ
type_half = b'H' ∷ 0 ∷ []

reads_first : number (name ∷ eight ∷ many ∷ type_half ∷ []) 1 ≡ ok 8
unfolding number strtou32
reads_first = refl

reads_second : number (name ∷ eight ∷ many ∷ type_half ∷ []) 2 ≡ ok 70000
unfolding number strtou32
reads_second = refl

reads_type : first_char (name ∷ eight ∷ many ∷ type_half ∷ []) 3 ≡ ok b'H'
unfolding first_char
reads_type = refl

half_fits : check_width b'H' 8 ≡ ok half
unfolding check_width
half_fits = refl

peek-poke_example :
    (m' : Memory) × (poke (name ∷ eight ∷ many ∷ type_half ∷ []) (λ x. 0) ≡ ok m')
    × (peek (name ∷ eight ∷ type_half ∷ []) m' ≡ ok (70000 % limit half))
peek-poke_example =
    peek-poke name name eight many type_half 8 70000 b'H' half (λ x. 0) reads_first reads_second
      (omega arith) reads_type half_fits

-- memcpy 256 8 8
abbrev copy_line : List (List ℕ)
copy_line = name ∷ far ∷ eight ∷ eight ∷ []

reads_source : number copy_line 1 ≡ ok 256
unfolding number strtou32
reads_source = refl

reads_destination : number copy_line 2 ≡ ok 8
unfolding number strtou32
reads_destination = refl

reads_length : number copy_line 3 ≡ ok 8
unfolding number strtou32
reads_length = refl

cmd_memcpy-Copied_example :
    (m' : Memory) × (cmd_memcpy copy_line (λ x. x % 256) ≡ ok m') × Copied 2 8 256 (λ x. x % 256) m'
cmd_memcpy-Copied_example =
    cmd_memcpy-Copied copy_line 256 8 8 2 (λ x. x % 256) refl reads_source reads_destination
      reads_length refl refl refl (omega arith) (omega arith) (inl (omega arith)) (λ x. omega arith)

-- bitchg 8 256 or
abbrev change_line : List (List ℕ)
change_line = name ∷ eight ∷ far ∷ (b'o' ∷ b'r' ∷ 0 ∷ []) ∷ []

reads_address : number change_line 1 ≡ ok 8
unfolding number strtou32
reads_address = refl

reads_value : number change_line 2 ≡ ok 256
unfolding number strtou32
reads_value = refl

reads_operation : first_char change_line 3 ≡ ok b'o'
unfolding first_char
reads_operation = refl

changes_bits : change b'o' 0 256 ≡ ok 256
unfolding change
changes_bits = refl

bit_change_misses_example :
    (bit_change change_line (λ x. 0) ≡ ok (write_word (λ x. 0) 0 256))
    × (word_at (write_word (λ x. 0) 0 256) 8 ≡ word_at (λ x. 0) 8)
bit_change_misses_example =
    bit_change_misses change_line 8 256 b'o' 256 (λ x. 0) refl reads_address reads_value
      reads_operation refl (omega arith) (omega arith) changes_bits

-- All arguments of a call are the first one.
call_repeats : call (name ∷ eight ∷ far ∷ many ∷ []) ≡ ok (8, 256, 256, 0, 0)
unfolding call number optional strtou32
call_repeats = refl
