-- ===== src/Number/Laws.antt =====
-- strtou32 against the numerals that it is to read.
use gen_blob.Base.{
  Bool-cases, ◌⊎◌, inl, inr, ◌<◌, ℕ, zero, suc, ◌+◌, ◌-◌, ◌*◌, ◌%◌, ◌^◌, ◌&&◌, List, [], ◌∷◌,
  Option, none, some, leb, ◌==◌, ◌≡◌, refl, ◌∙◌, arith, if◌then◌else◌, ℤ, pos, negsuc, sub_ℕ, u32,
  bit_or, bit_or_nibble,
}
use gen_blob.Text.{IsString, nul, char, strncmp}
use gen_blob.Number.{is_zero, digitvalue, xdigitvalue, hex_loop, decimal_loop, strtou32}

-- A digit of either base, as a numeral's reader sees it.
pub decimal : ℕ → Option ℕ
decimal c = if leb b'0' c && leb c b'9' then some (c - b'0') else none

pub hexadecimal : ℕ → Option ℕ
hexadecimal c =
    if leb b'0' c && leb c b'9'
    then some (c - b'0')
    else if leb b'a' c && leb c b'f'
    then some (c - 87)
    else none

-- The number that a text denotes in a base, behind the digits whose number is `acc`; `none` if
-- some character is no digit. There is no bound on it.
abbrev pub number : ℕ → (ℕ → Option ℕ) → ℕ → List ℕ → Option ℕ
number base digit acc [] = some acc
number base digit acc (c ∷ cs) = elim (digit c) [
  | none ↦ none
  | some d ↦ number base digit (acc * base + d) cs
]

-- The number that a text denotes, in base 16 behind `0x`, in base 10 otherwise; without digits, 0.
abbrev pub numeral : List ℕ → Option ℕ
numeral (a ∷ b ∷ cs) =
    if a == b'0' && b == b'x' then number 16 hexadecimal 0 cs else number 10 decimal 0 (a ∷ b ∷ cs)
numeral cs = number 10 decimal 0 cs

-- A run of strtou32 that returned this code, for a text that denotes `n` if it denotes a number.
abbrev pub Reads : Option ℕ → Option (ℤ × ℕ) → Type 0
Reads (some n) r = r ≡ some (pos 0, n % 2 ^ 32)
Reads none r = (v : ℕ) × (r ≡ some (negsuc 0, v))

digitvalue-cases :
    (c : ℕ)
    → ((digitvalue c ≡ negsuc 0) × (decimal c ≡ none))
      ⊎ ((d : ℕ) × (digitvalue c ≡ pos d) × (decimal c ≡ some d))
unfolding digitvalue decimal
digitvalue-cases c = elim (Bool-cases (leb b'0' c && leb c b'9')) [
  | inl is_digit ↦ inr (c - b'0', rw is_digit, rw is_digit)
  | inr other ↦ inl (rw other, rw other)
]

xdigitvalue-cases :
    (c : ℕ)
    → ((xdigitvalue c ≡ negsuc 0) × (hexadecimal c ≡ none))
      ⊎ ((d : ℕ) × (xdigitvalue c ≡ pos d) × (hexadecimal c ≡ some d) × (d < 16))
unfolding xdigitvalue hexadecimal
xdigitvalue-cases c = elim (Bool-cases (leb b'0' c && leb c b'9')) [
  | inl is_digit ↦ inr (c - b'0', rw is_digit, rw is_digit, ground arith)
  | inr other ↦ elim (Bool-cases (leb b'a' c && leb c b'f')) [
    | inl letter ↦ inr (c - 87, ground arith, ground arith, ground arith)
    | inr neither ↦ inl (rw (other, neither), rw (other, neither))
  ]
]

decimal_loop-Reads :
    {s xs : List ℕ} (acc : ℕ)
    → IsString s xs
    → Reads (number 10 decimal acc xs) (decimal_loop s (acc % 2 ^ 32))
unfolding decimal_loop
decimal_loop-Reads acc (nul e) = ground arith
decimal_loop-Reads acc (char {c} {s} ne p) = elim (digitvalue-cases c) [
  | inl (bad, none_too) ↦ rw (none_too, Reads) (acc % 2 ^ 32, ground arith)
  | inr (d, good, some_too) ↦
      let wraps : u32 (u32 (acc % 2 ^ 32 * 10) + d) ≡ (acc * 10 + d) % 2 ^ 32 = omega arith in
      let step : decimal_loop (c ∷ s) (acc % 2 ^ 32) ≡ decimal_loop s ((acc * 10 + d) % 2 ^ 32) =
        ground arith in
      rw (some_too, step, Reads) (decimal_loop-Reads (acc * 10 + d) p)
]

hex_loop-Reads :
    {s xs : List ℕ} (acc : ℕ)
    → IsString s xs
    → Reads (number 16 hexadecimal acc xs) (hex_loop s (acc % 2 ^ 32))
unfolding hex_loop
hex_loop-Reads acc (nul e) = ground arith
hex_loop-Reads acc (char {c} {s} ne p) = elim (xdigitvalue-cases c) [
  | inl (bad, none_too) ↦ rw (none_too, Reads) (acc % 2 ^ 32, ground arith)
  | inr (d, good, some_too, small) ↦
      let shifted : u32 (acc % 2 ^ 32 * 2 ^ 4) ≡ acc % 2 ^ 28 * 16 = omega arith in
      let joined : bit_or (u32 (acc % 2 ^ 32 * 2 ^ 4)) d ≡ (acc * 16 + d) % 2 ^ 32 =
        rw shifted (omega (arith, bit_or_nibble (acc % 2 ^ 28) d small)) in
      let step : hex_loop (c ∷ s) (acc % 2 ^ 32) ≡ hex_loop s ((acc * 16 + d) % 2 ^ 32) =
        ground arith in
      rw (some_too, step, Reads) (hex_loop-Reads (acc * 16 + d) p)
]

is_zero-sub_ℕ : (a b : ℕ) → is_zero (sub_ℕ a b) ≡ (a == b)
is_zero-sub_ℕ a zero = refl
is_zero-sub_ℕ zero (suc b) = ground arith
is_zero-sub_ℕ (suc a) (suc b) = is_zero-sub_ℕ a b ∙ ground arith

strtou32-decimal :
    (s : List ℕ) {xs : List ℕ}
    → IsString s xs
    → numeral xs ≡ number 10 decimal 0 xs
    → strtou32 s ≡ decimal_loop s 0
    → Reads (numeral xs) (strtou32 s)
strtou32-decimal s p e f = rw (e, f) (decimal_loop-Reads 0 p)

-- `strncmp(str, "0x", 2) == 0`
zero_x_test :
    (a b : ℕ) (s : List ℕ)
    → (d : ℤ) × (strncmp (a ∷ b ∷ s) (b'0' ∷ b'x' ∷ 0 ∷ []) 2 ≡ some d)
      × (is_zero d ≡ (a == b'0' && b == b'x'))
unfolding strncmp
zero_x_test a b s = elim (Bool-cases (a == b'0')) [
  | inr other ↦ (sub_ℕ a b'0', rw other, is_zero-sub_ℕ a b'0' ∙ rw other)
  | inl zero_first ↦ elim (Bool-cases (b == b'x')) [
    | inr other ↦ (sub_ℕ b b'x', ground arith, is_zero-sub_ℕ b b'x' ∙ rw (zero_first, other))
    | inl x_second ↦ (pos 0, ground arith, rw (zero_first, x_second))
  ]
]

strtou32_entry :
    (a b : ℕ) (s : List ℕ)
    → strtou32 (a ∷ b ∷ s)
      ≡ (if a == b'0' && b == b'x' then hex_loop s 0 else decimal_loop (a ∷ b ∷ s) 0)
unfolding strtou32
strtou32_entry a b s = let (d, compared, agree) = zero_x_test a b s in rw (compared, agree)

-- strtou32 of a text returns 0 exactly if the text behind an initial `0x` is of digits and letters
-- from a to f alone, or, without `0x`, the text is of digits alone; no digit at all, as in the empty
-- text and a bare `0x`, is accepted too, as 0. The value is the number that the digits denote, in
-- base 16 or 10, modulo 2 ^ 32; any other text gives -1.
pub strtou32-Reads : {s xs : List ℕ} → IsString s xs → Reads (numeral xs) (strtou32 s)
unfolding strtou32
strtou32-Reads (nul {c} {rest} e) =
    strtou32-decimal (c ∷ rest) (nul e) refl (ground (arith, is_zero-sub_ℕ c b'0'))
strtou32-Reads (char {c = a} ne (nul {c} {rest} e)) =
    strtou32-decimal (a ∷ c ∷ rest) (char ne (nul e)) refl (strtou32_entry a c rest ∙ ground arith)
strtou32-Reads (char {c = a} ne (char {c = b} {s} {xs} nf p)) =
    elim (Bool-cases (a == b'0' && b == b'x')) [
      | inl hex ↦ rw (hex, strtou32_entry a b s, hex) (hex_loop-Reads 0 p)
      | inr other ↦
          strtou32-decimal (a ∷ b ∷ s) (char ne (char nf p)) (rw other)
            (strtou32_entry a b s ∙ rw other)
    ]
