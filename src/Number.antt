-- ===== src/Number.antt =====
-- src/lib/strtou32.c: numbers on the command line, decimal or behind `0x` in lower case
-- hexadecimal.
pub mod Laws
use gen_blob.Base.{
  ℕ, zero, suc, ◌+◌, ◌-◌, ◌*◌, ◌%◌, ◌^◌, Bool, false, ◌&&◌, List, [], ◌∷◌, Option, none, some, leb,
  ◌==◌, if◌then◌else◌, ℤ, pos, negsuc, u32, ◌<<<◌, bit_or, drop, ◌>>=◌,
}
use gen_blob.Text.{strncmp}

unfoldable pub digitvalue : ℕ → ℤ
digitvalue isdigit = if leb b'0' isdigit && leb isdigit b'9' then pos (isdigit - b'0') else negsuc 0

unfoldable pub xdigitvalue : ℕ → ℤ
xdigitvalue isdigit =
    if leb b'0' isdigit && leb isdigit b'9'
    then pos (isdigit - b'0')
    else if leb b'a' isdigit && leb isdigit b'f'
    then pos (10 + isdigit - b'a')
    else negsuc 0

-- The two loops. The result is the returned code with the `*value` at that time.
pub hex_loop : List ℕ → ℕ → Option (ℤ × ℕ)
hex_loop [] value = none
hex_loop (c ∷ str) value =
    let rest : Option (ℤ × ℕ) = elim (xdigitvalue c) [
      | negsuc _ ↦ some (negsuc 0, value)
      | pos i ↦ hex_loop str (bit_or (u32 (value <<< 4)) i)
    ] in
    if c == 0 then some (pos 0, value) else rest

pub decimal_loop : List ℕ → ℕ → Option (ℤ × ℕ)
decimal_loop [] value = none
decimal_loop (c ∷ str) value =
    let rest : Option (ℤ × ℕ) = elim (digitvalue c) [
      | negsuc _ ↦ some (negsuc 0, value)
      | pos i ↦ decimal_loop str (u32 (u32 (value * 10) + i))
    ] in
    if c == 0 then some (pos 0, value) else rest

abbrev pub is_zero : ℤ → Bool
is_zero (pos n) = n == 0
is_zero (negsuc n) = false

unfoldable pub strtou32 : List ℕ → Option (ℤ × ℕ)
unfolding hex_loop decimal_loop digitvalue xdigitvalue strncmp
strtou32 str = do
  d ← strncmp str (b'0' ∷ b'x' ∷ 0 ∷ []) 2
  if is_zero d then hex_loop (drop 2 str) 0 else decimal_loop str 0
