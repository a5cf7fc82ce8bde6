-- ===== src/Base/Bits.antt =====
-- `(q << 4) | r` for a hexadecimal digit `r`, as a sum: the way in which strtou32 puts a digit in.
use Prim.Native.Nat.{
  ℕ, zero, suc, ◌+◌, ◌*◌, ◌/◌, ◌%◌, ◌≤◌, ◌<◌, max, bit_or, digits, bit_or-bitwise,
}
use mathlib.Core.Path.{◌≡◌, refl, ap, ◌∙◌}
use native.Mathlib.Omega.{arith}

-- The digit recursion of the native operation, with its fuel.
abbrev or_digits : ℕ → ℕ → ℕ → ℕ
or_digits fuel a b = digits (λ y. y) max fuel a b

or_digits-zero : (fuel a : ℕ) → a ≤ fuel → or_digits fuel a 0 ≡ a
or_digits-zero zero zero h = refl
or_digits-zero zero (suc a) h = absurd (omega arith)
or_digits-zero (suc fuel) zero h = refl
or_digits-zero (suc fuel) (suc a) h = omega (arith, or_digits-zero fuel (suc a / 2) (omega arith))

or_digits-suc :
    (fuel c b : ℕ)
    → or_digits (suc fuel) (suc c) b
      ≡ or_digits fuel (suc c / 2) (b / 2) * 2 + max (suc c % 2) (b % 2)
or_digits-suc fuel c b = refl

or_digits_even :
    (fuel a b : ℕ) → 0 < a → or_digits (suc fuel) (2 * a) b ≡ or_digits fuel a (b / 2) * 2 + b % 2
or_digits_even fuel zero b h = absurd (omega arith)
or_digits_even fuel (suc a) b h =
    let double : 2 * suc a ≡ suc (2 * a + 1) = omega arith in
    let half : suc (2 * a + 1) / 2 ≡ suc a = omega arith in
    let even : suc (2 * a + 1) % 2 ≡ 0 = omega arith in
    rw (double, or_digits-suc, half, even) (omega arith)

or_digits_nibble :
    (fuel q r : ℕ)
    → 0 < q
    → q ≤ fuel
    → r < 16
    → or_digits (suc (suc (suc (suc fuel)))) (2 * (2 * (2 * (2 * q)))) r ≡ q * 16 + r
or_digits_nibble fuel q r pos fits small =
    let gone : r / 2 / 2 / 2 / 2 ≡ 0 = omega arith in
    let high : or_digits fuel q (r / 2 / 2 / 2 / 2) ≡ q = rw gone (or_digits-zero fuel q fits) in
    omega (
      arith,
      or_digits_even (suc (suc (suc fuel))) (2 * (2 * (2 * q))) r (omega arith),
      or_digits_even (suc (suc fuel)) (2 * (2 * q)) (r / 2) (omega arith),
      or_digits_even (suc fuel) (2 * q) (r / 2 / 2) (omega arith),
      or_digits_even fuel q (r / 2 / 2 / 2) pos,
      high,
    )

bit_or_digits : (c b : ℕ) → bit_or c b ≡ or_digits c c b
bit_or_digits c b = bit_or-bitwise c b

pub bit_or_nibble : (q r : ℕ) → r < 16 → bit_or (q * 16) r ≡ q * 16 + r
bit_or_nibble zero r h = omega (arith, bit_or_digits 0 r)
bit_or_nibble (suc q) r h =
    let unroll : suc q * 16 ≡ suc (suc (suc (suc (16 * q + 12)))) = omega arith in
    let twice : suc q * 16 ≡ 2 * (2 * (2 * (2 * suc q))) = omega arith in
    let fuelled : or_digits (suc q * 16) (suc q * 16) r ≡ suc q * 16 + r =
      rw
        (ap (λ k. or_digits k (suc q * 16) r) unroll
          ∙ ap (λ k. or_digits (suc (suc (suc (suc (16 * q + 12))))) k r) twice)
        (or_digits_nibble (16 * q + 12) (suc q) r (omega arith) (omega arith) h) in
    bit_or_digits (suc q * 16) r ∙ fuelled
