-- ===== src/Debug/WrongWord.antt =====
-- The address of the command bitchg in src/blob/debug.c.
use gen_blob.Base.{ℕ, ◌+◌, ◌%◌, ◌^◌, ◌≤◌, ◌≡◌, false, List, refl, arith, ltb, length, inr}
use gen_blob.Loader.Memory.{Memory, word_at}
use gen_blob.Debug.{ok, number, first_char, change, write_word, bit_change}
use gen_blob.Debug.Words.{word_at-write_word_other}

-- For the address of a whole word other than the first, a value, and an operation that bitchg
-- knows: the word at that address stays as it is, and what changes is the word at 0, to the result
-- of the operation on it.
pub bit_change_misses :
    (argv : List (List ℕ)) (address value op new : ℕ) (m : Memory)
    → length argv ≡ 4
    → number argv 1 ≡ ok address
    → number argv 2 ≡ ok value
    → first_char argv 3 ≡ ok op
    → address % 4 ≡ 0
    → 4 ≤ address
    → address + 4 ≤ 2 ^ 32
    → change op (word_at m 0) value ≡ ok new
    → (bit_change argv m ≡ ok (write_word m 0 new))
      × (word_at (write_word m 0 new) address ≡ word_at m address)
unfolding bit_change
bit_change_misses argv address value op new m four is_address is_value is_op aligned high room
      changes =
    let enough : ltb (length argv) 4 ≡ false = ground arith in
    let zeroed : address % 4 ≡ 0 = aligned in
    (
      rw (enough, is_address, is_value, zeroed, is_op, changes) refl,
      word_at-write_word_other m 0 address new (omega arith) room (inr (omega arith)),
    )
