-- ===== src/Base/Digits.antt =====
-- The binary digits of a number, and the operations on them.
use Prim.Native.Nat.{
  ℕ, zero, suc, ◌+◌, ◌-◌, ◌*◌, ◌/◌, ◌%◌, ◌^◌, ◌≤◌, ◌<◌, max, min, bit_or, bit_and, digits,
  bit_or-bitwise, bit_and-bitwise,
}
use mathlib.Core.Path.{◌≡◌, refl, ap, sym, ◌∙◌}
use mathlib.Core.Logic.{inl, inr}
use mathlib.Core.Bool.{Bool, true, false, not, ◌&&◌, ◌||◌}
use native.Mathlib.Omega.{arith}
use gen_blob.Base.Tests.{◌==◌, ltb, Bool-cases, ==_iff, lt→ltb, le→ltb, ne→==}

-- Bit `k` of a word.
unfoldable pub bit_of : ℕ → ℕ → ℕ
bit_of zero x = x % 2
bit_of (suc k) x = bit_of k (x / 2)

abbrev pub test : ℕ → ℕ → Bool
test k x = bit_of k x == 1

bit_of_zero : (k : ℕ) → bit_of k 0 ≡ 0
unfolding bit_of
bit_of_zero zero = refl
bit_of_zero (suc k) = bit_of_zero k

pub bit_of_le : (k x : ℕ) → bit_of k x ≤ 1
unfolding bit_of
bit_of_le zero x = omega arith
bit_of_le (suc k) x = bit_of_le k (x / 2)

max_zero : (x : ℕ) → max 0 x ≡ x
max_zero x = omega arith

min_zero : (x : ℕ) → min 0 x ≡ 0
min_zero x = omega arith

bit_of-or_digits :
    (k fuel a b : ℕ)
    → a ≤ fuel
    → bit_of k (digits (λ y. y) max fuel a b) ≡ max (bit_of k a) (bit_of k b)
unfolding bit_of
bit_of-or_digits k zero zero b h = rw (bit_of_zero k, max_zero (bit_of k b)) refl
bit_of-or_digits k zero (suc a) b h = absurd (omega arith)
bit_of-or_digits k (suc fuel) zero b h = rw (bit_of_zero k, max_zero (bit_of k b)) refl
bit_of-or_digits zero (suc fuel) (suc a) b h = omega arith
bit_of-or_digits (suc k) (suc fuel) (suc a) b h =
    let half : (digits (λ y. y) max fuel (suc a / 2) (b / 2) * 2 + max (suc a % 2) (b % 2)) / 2
        ≡ digits (λ y. y) max fuel (suc a / 2) (b / 2) =
      omega arith in
    ap (bit_of k) half ∙ bit_of-or_digits k fuel (suc a / 2) (b / 2) (omega arith)

bit_of-and_digits :
    (k fuel a b : ℕ)
    → a ≤ fuel
    → bit_of k (digits (λ y. zero) min fuel a b) ≡ min (bit_of k a) (bit_of k b)
unfolding bit_of
bit_of-and_digits k zero zero b h = rw (bit_of_zero k, min_zero (bit_of k b)) refl
bit_of-and_digits k zero (suc a) b h = absurd (omega arith)
bit_of-and_digits k (suc fuel) zero b h = rw (bit_of_zero k, min_zero (bit_of k b)) refl
bit_of-and_digits zero (suc fuel) (suc a) b h = omega arith
bit_of-and_digits (suc k) (suc fuel) (suc a) b h =
    let half : (digits (λ y. zero) min fuel (suc a / 2) (b / 2) * 2 + min (suc a % 2) (b % 2)) / 2
        ≡ digits (λ y. zero) min fuel (suc a / 2) (b / 2) =
      omega arith in
    ap (bit_of k) half ∙ bit_of-and_digits k fuel (suc a / 2) (b / 2) (omega arith)

bit_of-bit_or : (k a b : ℕ) → bit_of k (bit_or a b) ≡ max (bit_of k a) (bit_of k b)
bit_of-bit_or k a b = ap (bit_of k) (bit_or-bitwise a b) ∙ bit_of-or_digits k a a b (omega arith)

bit_of-bit_and : (k a b : ℕ) → bit_of k (bit_and a b) ≡ min (bit_of k a) (bit_of k b)
bit_of-bit_and k a b = ap (bit_of k) (bit_and-bitwise a b) ∙ bit_of-and_digits k a a b (omega arith)

either_one : (x y : ℕ) → x ≤ 1 → y ≤ 1 → (max x y == 1) ≡ ((x == 1) || (y == 1))
either_one x y hx hy = ground arith

both_one : (x y : ℕ) → x ≤ 1 → y ≤ 1 → (min x y == 1) ≡ ((x == 1) && (y == 1))
both_one x y hx hy = ground arith

pub test-bit_or : (k a b : ℕ) → test k (bit_or a b) ≡ (test k a || test k b)
test-bit_or k a b =
    ap (λ x. x == 1) (bit_of-bit_or k a b)
    ∙ either_one (bit_of k a) (bit_of k b) (bit_of_le k a) (bit_of_le k b)

pub test-bit_and : (k a b : ℕ) → test k (bit_and a b) ≡ (test k a && test k b)
test-bit_and k a b =
    ap (λ x. x == 1) (bit_of-bit_and k a b)
    ∙ both_one (bit_of k a) (bit_of k b) (bit_of_le k a) (bit_of_le k b)

-- Numbers with the same bits are the same.
bits_differ : (n x y : ℕ) → x ≤ n → y ≤ n → ((k : ℕ) → test k x ≡ test k y) → x ≡ y
unfolding bit_of
bits_differ zero x y hx hy same = omega arith
bits_differ (suc n) x y hx hy same =
    let low : (x % 2 == 1) ≡ (y % 2 == 1) = same 0 in
    let low' : x % 2 ≡ y % 2 = ground (arith, low) in
    let high : x / 2 ≡ y / 2 =
      bits_differ n (x / 2) (y / 2) (omega arith) (omega arith) (λ k. same (suc k)) in
    omega (arith, low', high)

pub test_injective : (x y : ℕ) → ((k : ℕ) → test k x ≡ test k y) → x ≡ y
test_injective x y same = bits_differ (x + y) x y (omega arith) (omega arith) same

same_suc : (j k : ℕ) → (j == k) ≡ (suc j == suc k)
same_suc j k = ground arith

-- The mask of one bit.
pub test_power : (j k : ℕ) → test j (2 ^ k) ≡ (j == k)
unfolding bit_of
test_power zero zero = refl
test_power zero (suc k) = let twice : 2 ^ suc k ≡ 2 * 2 ^ k = omega arith in ground (arith, twice)
test_power (suc j) zero = rw (bit_of_zero j) (sym (ne→== (suc j) 0 (λ e. omega arith)))
test_power (suc j) (suc k) =
    let half : 2 ^ suc k / 2 ≡ 2 ^ k = omega arith in
    ap (λ x. bit_of j x == 1) half ∙ test_power j k ∙ same_suc j k

pub test_zero : (j : ℕ) → test j 0 ≡ false
test_zero j = rw (bit_of_zero j) refl

and_of_one : (j k x : ℕ) → test k x ≡ true → (test j x && (j == k)) ≡ (j == k)
and_of_one j k x one = elim (Bool-cases (j == k)) [
  | inl e ↦ rw ((==_iff j k).0 e, one) refl
  | inr e ↦ rw e (elim (Bool-cases (test j x)) [ inl t ↦ rw t refl | inr t ↦ rw t refl ])
]

and_of_zero : (j k x : ℕ) → test k x ≡ false → (test j x && (j == k)) ≡ false
and_of_zero j k x clear = elim (Bool-cases (j == k)) [
  | inl e ↦ rw ((==_iff j k).0 e, clear) refl
  | inr e ↦ rw e (elim (Bool-cases (test j x)) [ inl t ↦ rw t refl | inr t ↦ rw t refl ])
]

power_positive : (k : ℕ) → ¬ (2 ^ k ≡ 0)
power_positive zero e = omega arith
power_positive (suc k) e =
    let twice : 2 ^ suc k ≡ 2 * 2 ^ k = omega arith in power_positive k (omega arith)

-- A test of one bit by a mask.
pub bit_and-power : (k x : ℕ) → not (bit_and x (2 ^ k) == 0) ≡ test k x
bit_and-power k x = elim (Bool-cases (test k x)) [
  | inl one ↦
      let whole : bit_and x (2 ^ k) ≡ 2 ^ k = test_injective (bit_and x (2 ^ k)) (2 ^ k) (λ j.
        test-bit_and j x (2 ^ k)
        ∙ ap (λ b. test j x && b) (test_power j k)
        ∙ and_of_one j k x one
        ∙ sym (test_power j k)) in
      rw (whole, one) (ap not (ne→== (2 ^ k) 0 (λ e. power_positive k e)))
  | inr clear ↦
      let none : bit_and x (2 ^ k) ≡ 0 = test_injective (bit_and x (2 ^ k)) 0 (λ j.
        test-bit_and j x (2 ^ k)
        ∙ ap (λ b. test j x && b) (test_power j k)
        ∙ and_of_zero j k x clear
        ∙ sym (test_zero j)) in
      rw (none, clear) refl
]

-- A number below a power of two has no bit above.
pub test_above : (n j x : ℕ) → x < 2 ^ n → n ≤ j → test j x ≡ false
unfolding bit_of
test_above zero j x small h = let none : x ≡ 0 = omega arith in ap (test j) none ∙ test_zero j
test_above (suc n) zero x small h = absurd (omega arith)
test_above (suc n) (suc j) x small h =
    let twice : 2 ^ suc n ≡ 2 * 2 ^ n = omega arith in
    test_above n j (x / 2) (omega arith) (omega arith)

less_suc : (j k : ℕ) → ltb j k ≡ ltb (suc j) (suc k)
less_suc j k = ground arith

covered : (n j x : ℕ) → x < 2 ^ n → (test j x && ltb j n) ≡ test j x
covered n j x small = elim (Bool-cases (ltb j n)) [
  | inl e ↦ rw e (elim (Bool-cases (test j x)) [ inl t ↦ rw t refl | inr t ↦ rw t refl ])
  | inr e ↦ rw (e, test_above n j x small (ground (arith, e))) refl
]

pub test_ones : (n j : ℕ) → test j (2 ^ n - 1) ≡ ltb j n
unfolding bit_of
test_ones zero j = test_zero j ∙ sym (le→ltb j 0 (omega arith))
test_ones (suc n) zero =
    let twice : 2 ^ suc n ≡ 2 * 2 ^ n = omega arith in
    let odd : (2 ^ suc n - 1) % 2 ≡ 1 = omega (arith, power_positive n) in
    rw (lt→ltb 0 (suc n) (omega arith)) (ap (λ x. x == 1) odd)
test_ones (suc n) (suc j) =
    let twice : 2 ^ suc n ≡ 2 * 2 ^ n = omega arith in
    let half : (2 ^ suc n - 1) / 2 ≡ 2 ^ n - 1 = omega arith in
    ap (test j) half ∙ test_ones n j ∙ less_suc j n

-- A mask of ones keeps the numbers that it covers.
pub bit_and-ones : (n x : ℕ) → x < 2 ^ n → bit_and x (2 ^ n - 1) ≡ x
bit_and-ones n x small = test_injective (bit_and x (2 ^ n - 1)) x (λ j.
    test-bit_and j x (2 ^ n - 1) ∙ ap (λ b. test j x && b) (test_ones n j) ∙ covered n j x small)

and_digits_le : (fuel a b : ℕ) → digits (λ y. zero) min fuel a b ≤ b
and_digits_le zero a b = omega arith
and_digits_le (suc fuel) zero b = omega arith
and_digits_le (suc fuel) (suc a) b = omega (arith, and_digits_le fuel (suc a / 2) (b / 2))

pub bit_and_le : (a b : ℕ) → bit_and a b ≤ b
bit_and_le a b = omega (arith, bit_and-bitwise a b, and_digits_le a a b)

flipped : (x : ℕ) → x ≤ 1 → (1 - x == 1) ≡ not (x == 1)
flipped x h = ground arith

pub test_complement : (n k x : ℕ) → k < n → x < 2 ^ n → test k (2 ^ n - 1 - x) ≡ not (test k x)
unfolding bit_of
test_complement zero k x h small = absurd (omega arith)
test_complement (suc n) zero x h small =
    let twice : 2 ^ suc n ≡ 2 * 2 ^ n = omega arith in
    let low : (2 ^ suc n - 1 - x) % 2 ≡ 1 - x % 2 = omega arith in
    ap (λ y. y == 1) low ∙ flipped (x % 2) (omega arith)
test_complement (suc n) (suc k) x h small =
    let twice : 2 ^ suc n ≡ 2 * 2 ^ n = omega arith in
    let half : (2 ^ suc n - 1 - x) / 2 ≡ 2 ^ n - 1 - x / 2 = omega arith in
    ap (test k) half ∙ test_complement n k (x / 2) (omega arith) (omega arith)
