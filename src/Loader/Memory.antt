-- ===== src/Loader/Memory.antt =====
-- The address space as the loader's handlers use it: bytes and little-endian words at 32-bit
-- addresses, and the checksum loops of src/blob/bl_cmds_handler.c. The arrays of the loader itself
-- are apart from it.
pub mod ReadBack
use gen_blob.Base.{
  ℕ, zero, suc, ◌+◌, ◌*◌, ◌^◌, List, [], ◌∷◌, Option, none, some, ◌==◌, if◌then◌else◌, u8, u16, u32,
}

abbrev pub Memory : Type 0
Memory = ℕ → ℕ

-- A pointer is increased modulo 2 ^ 32.
abbrev pub byte_at : Memory → ℕ → ℕ
byte_at m a = m (u32 a)

abbrev pub word_at : Memory → ℕ → ℕ
word_at m a =
    byte_at m a
    + 2 ^ 8 * byte_at m (a + 1)
    + 2 ^ 16 * byte_at m (a + 2)
    + 2 ^ 24 * byte_at m (a + 3)

-- `*p++ = …` for `count` bytes.
unfoldable pub write_bytes : Memory → ℕ → List ℕ → Memory
write_bytes m a [] = m
write_bytes m a (b ∷ bs) = write_bytes (λ x. if x == u32 a then b else m x) (a + 1) bs

unfoldable pub read_bytes : Memory → ℕ → ℕ → List ℕ
read_bytes m a zero = []
read_bytes m a (suc count) = byte_at m a ∷ read_bytes m (a + 1) count

-- `csum += *p++` for `count` bytes, in 16 bits.
pub sum_memory : Memory → ℕ → ℕ → ℕ → ℕ
sum_memory m csum a zero = csum
sum_memory m csum a (suc count) = sum_memory m (u16 (csum + byte_at m a)) (a + 1) count

-- `calc_csum += data_ptr[i]` for the first `count` bytes of an array, in 8 bits.
unfoldable pub sum_data : ℕ → List ℕ → ℕ → Option ℕ
sum_data csum ds zero = some csum
sum_data csum [] (suc count) = none
sum_data csum (d ∷ ds) (suc count) = sum_data (u8 (csum + d)) ds count

pub sum_list : ℕ → List ℕ → ℕ
sum_list csum [] = csum
sum_list csum (d ∷ ds) = sum_list (u8 (csum + d)) ds
