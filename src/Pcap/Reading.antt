-- ===== src/Pcap/Reading.antt =====
-- What src/blob/pcap.c reads from a register of a chip that answers.
use gen_blob.Base.{
  ℕ, ◌^◌, ◌<◌, ◌≡◌, ◌∙◌, refl, sym, ap, Bool, true, false, ◌||◌, ◌&&◌, List, [], ◌∷◌, ◌++◌, ltb,
  if◌then◌else◌, inl, inr, lt_eq_gt, ==_self, lt→ltb, le→ltb, subst, arith, bit_and, test,
  test_zero, test_above, test_injective, bit_and-ones,
}
use gen_blob.Pcap.{
  Pcap, PinWrite, gpio_txd_control, gpio_frm_control, pulse, start_frame, address_loop, read_loop,
  gpio_read, is_one_of, registers, pcap_success, set_value, read_data, value_mask,
}
use gen_blob.Pcap.Sampling.{
  request, Answers, pulse_again, address_loop_sends, address_loop-Keeps, pulse-Keeps_only,
  read_loop-Sampled,
}
use gen_blob.Pcap.Wire.{Wire, wire}
use gen_blob.Pcap.Written.{
  in_frame, pulse_sends, Idle, start_frame-in_frame, Keeps, Keeps-trans, pulse-Keeps,
  start_frame-Keeps, gpio_frm_control-Keeps, frame_ends,
}

all_bits :
    (v x : ℕ) → v < 2 ^ 25 → ((j : ℕ) → test j x ≡ (test j 0 || (ltb j 25 && test j v))) → x ≡ v
all_bits v x small tests = test_injective x v (λ j.
    tests j ∙ ap (λ b. b || (ltb j 25 && test j v)) (test_zero j) ∙ elim (lt_eq_gt j 25) [
      | inl h ↦ rw (lt→ltb j 25 h) refl
      | inr (inl e) ↦ rw (le→ltb j 25 (omega arith)) (sym (test_above 25 j v small (omega arith)))
      | inr (inr h) ↦ rw (le→ltb j 25 (omega arith)) (sym (test_above 25 j v small (omega arith)))
    ])

abbrev Read : ℕ → List (List Bool) → Wire → Pcap → ℕ × Pcap → Type 0
Read v fs w p result =
    (result.0 ≡ v)
    × Keeps p result.1
    × ((d : Bool) × (bs : List Bool) × (wire p.operate_pin_with_inverter w result.1.pins
          ≡ in_frame d bs fs))

Read-value :
    (shows : List PinWrite → Bool) (w : Wire) (r v : ℕ) (d : Bool) (fs : List (List Bool))
    (p q : Pcap)
    → Answers shows p.operate_pin_with_inverter p.rxd_pin_with_inverter w r v
    → v < 2 ^ 25
    → Keeps p q
    → wire p.operate_pin_with_inverter w q.pins ≡ in_frame d (request r ++ d ∷ []) fs
    → Read v fs w p (read_loop shows 25 0x01000000 0 q)
Read-value shows w r v d fs p q answers small keeps h =
    let q' : Pcap = record p { pins = q.pins } in
    let (tests, kept, behind) =
      read_loop-Sampled shows w r v 25 0 d (d ∷ []) fs q' answers h refl in
    subst (λ x. Read v fs w p (read_loop shows 25 0x01000000 0 x)) (sym keeps)
      (all_bits v (read_loop shows 25 0x01000000 0 q').0 small tests, kept, behind)

gpio_read_lem :
    (shows : List PinWrite → Bool) (w : Wire) (r v : ℕ) (p : Pcap)
    → Answers shows p.operate_pin_with_inverter p.rxd_pin_with_inverter w r v
    → v < 2 ^ 25
    → Idle p.operate_pin_with_inverter w p
    → ((gpio_read shows r p).0 ≡ v)
      × Keeps p (gpio_read shows r p).1
      × Idle p.operate_pin_with_inverter w (gpio_read shows r p).1
unfolding gpio_read
gpio_read_lem shows w r v p answers small idle =
    let inverted = p.operate_pin_with_inverter in
    let fs = (wire inverted w p.pins).frames in
    let p0 = start_frame p in
    let p1 = pulse (gpio_txd_control 0 p0) in
    let pa = address_loop 5 r 0x40000000 p1 in
    let p2 = pulse pa in
    let asked =
      address_loop_sends 4 inverted w false (false ∷ []) fs r p1
        (pulse_sends inverted w false [] fs 0 p0 (start_frame-in_frame w p idle)) in
    let dead = pulse_again inverted w (test 0 r) (request r) fs pa asked in
    let keeps : Keeps p p2 = Keeps-trans p p0 p2 (start_frame-Keeps p) (
      Keeps-trans p0 p1 p2 (pulse-Keeps 0 p0)
        (Keeps-trans p1 pa p2 (address_loop-Keeps 5 r 0x40000000 p1) (pulse-Keeps_only pa))) in
    let (value, kept, (d, bs, behind)) =
      Read-value shows w r v (test 0 r) fs p p2 answers small keeps dead in
    let q = (read_loop shows 25 0x01000000 0 p2).1 in
    (
      value,
      Keeps-trans p q (gpio_frm_control 0 q) kept (gpio_frm_control-Keeps 0 q),
      ap (λ x. x.selected) (frame_ends w d bs fs p q kept behind),
    )

-- For one of the registers, of a value `v` of 25 bits, on a chip that answers and is not selected:
-- the read succeeds with `v`, keeps `v` as the register's value, and leaves the chip unselected.
pub read_data-Answers :
    (shows : List PinWrite → Bool) (w : Wire) (r v old : ℕ) (p : Pcap)
    → is_one_of registers r ≡ true
    → Answers shows p.operate_pin_with_inverter p.rxd_pin_with_inverter w r v
    → v < 2 ^ 25
    → Idle p.operate_pin_with_inverter w p
    → ((read_data shows r old p).0 ≡ pcap_success)
      × ((read_data shows r old p).1 ≡ v)
      × ((read_data shows r old p).2.register_value r ≡ v)
      × Idle p.operate_pin_with_inverter w (read_data shows r old p).2
unfolding read_data set_value
read_data-Answers shows w r v old p known answers small idle =
    let (value, kept, unselected) = gpio_read_lem shows w r v p answers small idle in
    let result = gpio_read shows r p in
    let done : read_data shows r old p
        ≡ (pcap_success, result.0, set_value r (bit_and result.0 value_mask) result.1) =
      rw known refl in
    rw done (
      refl,
      value,
      ap (λ b. if b then bit_and result.0 value_mask else result.1.register_value r) (==_self r)
          ∙ ap (λ x. bit_and x value_mask) value
          ∙ bit_and-ones 25 v small,
      unselected,
    )
