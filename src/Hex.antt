-- ===== src/Hex.antt =====
-- The hexadecimal conversions of src/blob/bl_utility.c, in which the host and the boot loader
-- write addresses, sizes and checksums. A pointer is the rest of its array.
pub mod Laws
use gen_blob.Base.{
  ℕ, zero, suc, ◌+◌, ◌-◌, ◌*◌, ◌/◌, ◌%◌, ◌^◌, List, [], ◌∷◌, ◌++◌, Option, none, some, leb, ltb,
  if◌then◌else◌, u8, u16, u32, ◌<<<◌, ◌>>>◌,
}

-- `(digit >= 'A') ? (digit - '7') : (digit - '0')`, added to a u32: a difference below 0 wraps.
abbrev pub add_digit : ℕ → ℕ → ℕ
add_digit val digit = u32 (val + 2 ^ 32 + digit - (if leb b'A' digit then b'7' else b'0'))

-- `while (size--)`, on the value read so far.
pub hexasc_loop : ℕ → List ℕ → ℕ → Option ℕ
hexasc_loop val str zero = some val
hexasc_loop val [] (suc size) = none
hexasc_loop val (digit ∷ str) (suc size) = hexasc_loop (add_digit (u32 (val <<< 4)) digit) str size

unfoldable pub hexasc_to_u32 : List ℕ → ℕ → Option ℕ
unfolding hexasc_loop
hexasc_to_u32 str size = hexasc_loop 0 str size

-- `(digit > 9) ? (digit + '7') : (digit + '0')`
unfoldable pub hex_char : ℕ → ℕ
hex_char digit = u8 (if ltb 9 digit then digit + b'7' else digit + b'0')

-- The loop of the three converters: `rounds` digits from the top of a value of `width` bits, by
-- `(val >> shift) & 0x0f` and `val <<= 4`; what they write, with the NUL.
pub hexasc_digits : ℕ → ℕ → ℕ → ℕ → List ℕ
hexasc_digits width shift zero val = 0 ∷ []
hexasc_digits width shift (suc rounds) val =
    hex_char (val >>> shift % 2 ^ 4) ∷ hexasc_digits width shift rounds ((val <<< 4) % 2 ^ width)

unfoldable pub u8_to_hexasc : ℕ → List ℕ
unfolding hexasc_digits hex_char
u8_to_hexasc val = hexasc_digits 8 4 2 val

unfoldable pub u16_to_hexasc : ℕ → List ℕ
unfolding hexasc_digits hex_char
u16_to_hexasc val = hexasc_digits 16 12 4 val

-- `util_u32_to_hexasc`, whose parameter is a u16.
unfoldable pub u32_to_hexasc : ℕ → List ℕ
unfolding hexasc_digits hex_char
u32_to_hexasc val = hexasc_digits 16 28 8 (u16 val)
