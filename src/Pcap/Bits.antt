-- ===== src/Pcap/Bits.antt =====
-- The bits that src/blob/pcap.c sets and clears, as its copies of the registers show them.
use gen_blob.Base.{
  ℕ, ◌-◌, ◌^◌, ◌<◌, ◌≡◌, ◌∙◌, refl, sym, ap, Bool, true, false, not, ◌||◌, ◌&&◌, ◌==◌,
  if◌then◌else◌, Bool-cases, inl, inr, ltb, ne→==, arith, bit_and, bit_or, test, test-bit_or,
  test-bit_and, test_above, test_zero, test_injective, bit_and_le, test_complement,
}
use gen_blob.Pcap.{
  Pcap, is_one_of, registers, value_mask, pcap_success, register_of, cached, set_value, write_data,
  bit_set, bit_clean, get_bit_from_buffer,
}
use gen_blob.Pcap.Registers.{write_data_value}

-- The bits of the value that a bit's number stands for.
abbrev mask_of : ℕ → ℕ
mask_of pcap_bit = bit_and pcap_bit value_mask

set_bits : (c b m : Bool) → ((b && m) && ((c || (b && m)) && m)) ≡ (b && m)
set_bits true true true = refl
set_bits false true true = refl
set_bits true true false = refl
set_bits false true false = refl
set_bits true false m = refl
set_bits false false m = refl

set_value_bits :
    (c b : ℕ) → bit_and (mask_of b) (bit_and (bit_or c (mask_of b)) value_mask) ≡ mask_of b
set_value_bits c b =
    test_injective (bit_and (mask_of b) (bit_and (bit_or c (mask_of b)) value_mask)) (mask_of b)
      (λ k.
        test-bit_and k (mask_of b) (bit_and (bit_or c (mask_of b)) value_mask)
        ∙ ap (λ x. test k (mask_of b) && x)
            (test-bit_and k (bit_or c (mask_of b)) value_mask
              ∙ ap (λ x. x && test k value_mask) (test-bit_or k c (mask_of b)))
        ∙ ap (λ x. x && ((test k c || x) && test k value_mask)) (test-bit_and k b value_mask)
        ∙ set_bits (test k c) (test k b) (test k value_mask)
        ∙ sym (test-bit_and k b value_mask))

clear_bits : (x c m : Bool) → (x && ((c && not x) && m)) ≡ false
clear_bits false c m = refl
clear_bits true true m = refl
clear_bits true false m = refl

mask_small : (b : ℕ) → mask_of b < 2 ^ 25
mask_small b = omega (arith, bit_and_le b value_mask)

-- A cleared bit, below 25 and above.
cleared_bit :
    (k c b : ℕ)
    → (test k (mask_of b) && ((test k c && test k (2 ^ 32 - 1 - mask_of b)) && test k value_mask))
      ≡ false
cleared_bit k c b = elim (Bool-cases (ltb k 25)) [
  | inl h ↦
      let low : k < 25 = ground (arith, h) in
      ap (λ x. test k (mask_of b) && ((test k c && x) && test k value_mask))
        (test_complement 32 k (mask_of b) (omega arith) (omega (arith, mask_small b)))
      ∙ clear_bits (test k (mask_of b)) (test k c) (test k value_mask)
  | inr h ↦
      ap (λ x. x && ((test k c && test k (2 ^ 32 - 1 - mask_of b)) && test k value_mask))
        (test_above 25 k (mask_of b) (mask_small b) (ground (arith, h)))
]

clear_value_bits :
    (c b : ℕ) → bit_and (mask_of b) (bit_and (bit_and c (2 ^ 32 - 1 - mask_of b)) value_mask) ≡ 0
clear_value_bits c b =
    test_injective (bit_and (mask_of b) (bit_and (bit_and c (2 ^ 32 - 1 - mask_of b)) value_mask)) 0
      (λ k.
        test-bit_and k (mask_of b) (bit_and (bit_and c (2 ^ 32 - 1 - mask_of b)) value_mask)
        ∙ ap (λ x. test k (mask_of b) && x)
            (test-bit_and k (bit_and c (2 ^ 32 - 1 - mask_of b)) value_mask
              ∙ ap (λ x. x && test k value_mask) (test-bit_and k c (2 ^ 32 - 1 - mask_of b)))
        ∙ cleared_bit k c b
        ∙ sym (test_zero k))

-- What the buffer shows of the bit, from the value of its register.
shown :
    (pcap_bit v : ℕ) (p : Pcap)
    → is_one_of registers (register_of pcap_bit) ≡ true
    → p.register_value (register_of pcap_bit) ≡ v
    → get_bit_from_buffer pcap_bit p ≡ (if bit_and (mask_of pcap_bit) v == 0 then 0 else 1)
unfolding get_bit_from_buffer
shown pcap_bit v p known value = rw (known, value) refl

-- For a bit of one of the registers, which is a part of its 25 bits: bit_set and bit_clean succeed,
-- and the buffer then shows a one, and a zero.
pub get_bit_from_buffer-bit_set :
    (pcap_bit : ℕ) (p : Pcap)
    → is_one_of registers (register_of pcap_bit) ≡ true
    → 0 < bit_and pcap_bit value_mask
    → ((bit_set pcap_bit p).0 ≡ pcap_success)
      × (get_bit_from_buffer pcap_bit (bit_set pcap_bit p).1 ≡ 1)
      × ((bit_clean pcap_bit p).0 ≡ pcap_success)
      × (get_bit_from_buffer pcap_bit (bit_clean pcap_bit p).1 ≡ 0)
unfolding bit_set bit_clean
get_bit_from_buffer-bit_set pcap_bit p known some_bit =
    let r = register_of pcap_bit in
    let m = mask_of pcap_bit in
    let high = bit_or (cached r p) m in
    let low = bit_and (cached r p) (2 ^ 32 - 1 - m) in
    let after_set : Pcap = (write_data r high (set_value r high p)).1 in
    let after_clean : Pcap = (write_data r low (set_value r low p)).1 in
    let set : bit_set pcap_bit p ≡ (pcap_success, after_set) = rw known refl in
    let clean : bit_clean pcap_bit p ≡ (pcap_success, after_clean) = rw known refl in
    (
      ap (λ x. x.0) set,
      ap (λ x. get_bit_from_buffer pcap_bit x.1) set
          ∙ shown pcap_bit (bit_and high value_mask) after_set known
              (write_data_value r high (set_value r high p) known)
          ∙ ap (λ x. if x == 0 then 0 else 1) (set_value_bits (cached r p) pcap_bit)
          ∙ ap (λ b. if b then 0 else 1) (ne→== m 0 (λ e. omega arith)),
      ap (λ x. x.0) clean,
      ap (λ x. get_bit_from_buffer pcap_bit x.1) clean
          ∙ shown pcap_bit (bit_and low value_mask) after_clean known
              (write_data_value r low (set_value r low p) known)
          ∙ ap (λ x. if x == 0 then 0 else 1) (clear_value_bits (cached r p) pcap_bit),
    )
