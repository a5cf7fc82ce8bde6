-- ===== src/Pcap/Registers.antt =====
-- The registers of the chip in src/blob/pcap.c, and the frames that carry their values.
use gen_blob.Base.{
  ℕ, ◌*◌, ◌^◌, ◌≡◌, ◌∙◌, refl, sym, ap, subst, Bool, true, false, ◌||◌, ◌&&◌, List, [], ◌∷◌, ◌++◌,
  ◌==◌, if◌then◌else◌, Bool-cases, ==_iff, ==_self, inl, inr, arith, bit_and, bit_or, bit_of, test,
  test-bit_or, test-bit_and,
}
use gen_blob.Pcap.{
  Pcap, registers, is_one_of, value_mask, write_op_bit, pcap_success, set_value, gpio_write,
  write_data,
}
use gen_blob.Pcap.Wire.{Wire, wire, down}
use gen_blob.Pcap.Written.{Idle, gpio_write-Keeps, gpio_write_frame}

abbrev Each {ℓ} : (ℕ → Type ℓ) → List ℕ → Type ℓ
Each P [] = Unit
Each P (x ∷ xs) = P x × Each P xs

one_of {ℓ} : (P : ℕ → Type ℓ) (xs : List ℕ) (r : ℕ) → Each P xs → is_one_of xs r ≡ true → P r
unfolding is_one_of
one_of P [] r each h = absurd (ground (arith, h))
one_of P (x ∷ xs) r (px, each) h = elim (Bool-cases (r == x)) [
  | inl e ↦ subst P (sym ((==_iff r x).0 e)) px
  | inr e ↦ one_of P xs r each (sym (ap (λ b. b || is_one_of xs r) e) ∙ h)
]

and_comm : (a b : Bool) → (a && b) ≡ (b && a)
and_comm true true = refl
and_comm true false = refl
and_comm false true = refl
and_comm false false = refl

-- The word that goes out, a bit at a time.
test_word :
    (k a value : ℕ)
    → test k (bit_or a (bit_and value value_mask))
      ≡ (test k a || (test k value_mask && test k value))
test_word k a value =
    test-bit_or k a (bit_and value value_mask)
    ∙ ap (λ b. test k a || b)
        (test-bit_and k value value_mask ∙ and_comm (test k value) (test k value_mask))

-- A one for a write, the number of the register, a zero and the value.
abbrev pub frame_of : ℕ → ℕ → List Bool
frame_of r value = true ∷ down 5 (λ i. test i r) ++ false ∷ down 25 (λ i. test i value)

abbrev Framed : ℕ → ℕ → Type 0
Framed value r =
    down 32 (λ i. test i (bit_or write_op_bit (r * 2 ^ 26)) || (test i value_mask && test i value))
    ≡ frame_of r value

all-Framed : (value : ℕ) → Each (Framed value) registers
unfolding bit_of
all-Framed value = (
  refl,
  (
    refl,
    (refl, (refl, (refl, (refl, (refl, (refl, (refl, (refl, (refl, (refl, (refl, tt))))))))))),
  ),
)

-- The masked value is kept as the register's.
pub write_data_value :
    (r value : ℕ) (p : Pcap)
    → is_one_of registers r ≡ true
    → (write_data r value p).1.register_value r ≡ bit_and value value_mask
unfolding write_data set_value
write_data_value r value p known =
    let masked = bit_and value value_mask in
    let q = set_value r masked p in
    let word = bit_or (bit_or write_op_bit (r * 2 ^ 26)) masked in
    let result : write_data r value p ≡ (pcap_success, gpio_write word q) = rw known refl in
    ap (λ x. x.1.register_value r) result
    ∙ ap (λ x. x.register_value r) (gpio_write-Keeps word q)
    ∙ ap (λ b. if b then masked else p.register_value r) (==_self r)

-- For one of the registers, and a chip that is not selected: the write succeeds, sends one frame
-- more, which is a one, the five bits of the register's number, a zero and the lower 25 bits of the
-- value, the highest first, keeps the masked value as the register's, and leaves the chip
-- unselected.
pub write_data_frame :
    (r value : ℕ) (w : Wire) (p : Pcap)
    → is_one_of registers r ≡ true
    → Idle p.operate_pin_with_inverter w p
    → ((write_data r value p).0 ≡ pcap_success)
      × ((wire p.operate_pin_with_inverter w (write_data r value p).1.pins).frames
          ≡ frame_of r value ∷ (wire p.operate_pin_with_inverter w p.pins).frames)
      × ((write_data r value p).1.register_value r ≡ bit_and value value_mask)
      × Idle p.operate_pin_with_inverter w (write_data r value p).1
unfolding write_data set_value
write_data_frame r value w p known idle =
    let q = set_value r (bit_and value value_mask) p in
    let header = bit_or write_op_bit (r * 2 ^ 26) in
    let word = bit_or header (bit_and value value_mask) in
    let result : write_data r value p ≡ (pcap_success, gpio_write word q) = rw known refl in
    let sent = gpio_write_frame w word q idle in
    let bits : down 32 (λ i. test i word) ≡ frame_of r value =
      ap (down 32) (λ j i. test_word i header value j)
      ∙ one_of (Framed value) registers r (all-Framed value) known in
    rw result (
      refl,
      ap (λ x. x.frames) sent
          ∙ ap (λ l. l ∷ (wire p.operate_pin_with_inverter w p.pins).frames) bits,
      sym (ap (λ x. x.1.register_value r) result) ∙ write_data_value r value p known,
      ap (λ x. x.selected) sent,
    )
