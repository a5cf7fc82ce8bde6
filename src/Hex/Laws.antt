-- ===== src/Hex/Laws.antt =====
-- The conversions are inverse, but for util_u32_to_hexasc, which writes zeros only.
use gen_blob.Base.{
  ℕ, zero, suc, ◌+◌, ◌*◌, ◌/◌, ◌%◌, ◌^◌, ◌<◌, List, [], ◌∷◌, ◌++◌, some, ◌≡◌, refl, arith, u32,
  ◌<<<◌, ap, ◌∙◌, replicate,
}
use gen_blob.Hex.{
  add_digit, hexasc_loop, hexasc_to_u32, hex_char, hexasc_digits, u8_to_hexasc, u16_to_hexasc,
  u32_to_hexasc,
}

-- Reading the character of a digit puts that digit behind the value.
add_digit-hex_char :
    (val d : ℕ) → d < 16 → add_digit (u32 (val <<< 4)) (hex_char d) ≡ (val * 16 + d) % 2 ^ 32
unfolding hex_char
add_digit-hex_char val d h = ground arith

hexasc_loop-hex_char :
    (val d : ℕ) (str : List ℕ) (size : ℕ)
    → d < 16
    → hexasc_loop val (hex_char d ∷ str) (suc size) ≡ hexasc_loop ((val * 16 + d) % 2 ^ 32) str size
unfolding hexasc_loop
hexasc_loop-hex_char val d str size h = rw (add_digit-hex_char val d h)

hexasc_pair :
    (val a b : ℕ) (rest : List ℕ)
    → a < 16
    → b < 16
    → (n : ℕ)
    → hexasc_loop val (hex_char a ∷ hex_char b ∷ rest) (suc (suc n))
      ≡ hexasc_loop ((val * 256 + a * 16 + b) % 2 ^ 32) rest n
hexasc_pair val a b rest ha hb n =
    let joined : ((val * 16 + a) % 2 ^ 32 * 16 + b) % 2 ^ 32 ≡ (val * 256 + a * 16 + b) % 2 ^ 32 =
      omega arith in
    hexasc_loop-hex_char val a (hex_char b ∷ rest) (suc n) ha
    ∙ hexasc_loop-hex_char ((val * 16 + a) % 2 ^ 32) b rest n hb
    ∙ ap (λ v. hexasc_loop v rest n) joined

-- What util_u8_to_hexasc writes for a byte reads back as that byte, whatever stands behind it.
pub hexasc_to_u32-u8_to_hexasc :
    (val : ℕ) (rest : List ℕ) → val < 2 ^ 8 → hexasc_to_u32 (u8_to_hexasc val ++ rest) 2 ≡ some val
unfolding hexasc_to_u32 u8_to_hexasc hexasc_digits
hexasc_to_u32-u8_to_hexasc val rest h =
    hexasc_pair 0 (val / 16 % 16) (val * 16 % 256 / 16 % 16) (0 ∷ rest) (omega arith) (omega arith)
      0
    ∙ unfold hexasc_loop in ap some (omega arith)

-- What util_u16_to_hexasc writes for a u16 reads back as that value, whatever stands behind it.
pub hexasc_to_u32-u16_to_hexasc :
    (val : ℕ) (rest : List ℕ)
    → val < 2 ^ 16
    → hexasc_to_u32 (u16_to_hexasc val ++ rest) 4 ≡ some val
unfolding hexasc_to_u32 u16_to_hexasc hexasc_digits
hexasc_to_u32-u16_to_hexasc val rest h =
    let second : ℕ = val * 16 % 2 ^ 16 in
    let third : ℕ = second * 16 % 2 ^ 16 in
    let fourth : ℕ = third * 16 % 2 ^ 16 in
    let digit : ℕ → ℕ = λ v. v / 2 ^ 12 % 16 in
    let front : ℕ = (0 * 256 + digit val * 16 + digit second) % 2 ^ 32 in
    hexasc_pair 0 (digit val) (digit second)
      (hex_char (digit third) ∷ hex_char (digit fourth) ∷ 0 ∷ rest) (omega arith) (omega arith) 2
    ∙ hexasc_pair front (digit third) (digit fourth) (0 ∷ rest) (omega arith) (omega arith) 0
    ∙ unfold hexasc_loop in ap some (omega arith)

zero_digits :
    (rounds val : ℕ)
    → val < 2 ^ 16
    → hexasc_digits 16 28 rounds val ≡ replicate rounds b'0' ++ 0 ∷ []
unfolding hexasc_digits
zero_digits zero val h = refl
zero_digits (suc rounds) val h =
    let none_left : val / 2 ^ 28 % 16 ≡ 0 = omega arith in
    rw (none_left, zero_digits rounds (val * 2 ^ 4 % 2 ^ 16) (omega arith))
      (unfold hex_char in refl)

-- util_u32_to_hexasc writes eight zeros for every value: its parameter has 16 bits only, and the
-- digits are taken from bit 28 up.
pub u32_to_hexasc_zeros : (val : ℕ) → u32_to_hexasc val ≡ replicate 8 b'0' ++ 0 ∷ []
unfolding u32_to_hexasc
u32_to_hexasc_zeros val = zero_digits 8 (val % 2 ^ 16) (omega arith)
