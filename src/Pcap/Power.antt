-- ===== src/Pcap/Power.antt =====
-- What pcap_mmc_power_on in src/blob/pcap.c leaves on when it switches the power off.
use gen_blob.Base.{
  ℕ, ◌-◌, ◌^◌, ◌<◌, ◌≡◌, ◌≢◌, ◌∙◌, refl, ap, Bool, true, false, not, ◌&&◌, List, ne→==, lt→ltb,
  arith, bit_and, test, test-bit_and, test_power, test_ones, test_complement,
}
use gen_blob.Pcap.{
  Pcap, PinWrite, is_one_of, registers, value_mask, register_of, set_value, write_data, read_data,
  bit_clean, cached,
}
use gen_blob.Pcap.Wire.{Wire}
use gen_blob.Pcap.Written.{Idle}
use gen_blob.Pcap.Registers.{write_data_value}
use gen_blob.Pcap.Sampling.{Answers}
use gen_blob.Pcap.Reading.{read_data-Answers}
use gen_blob.Pcap.Setup.{initialised, vaux2_en, vaux3_en, vap_masks, pcap_mmc_power_on}

knows : is_one_of registers 7 ≡ true
unfolding is_one_of
knows = refl

and_true : (b : Bool) → (b && true) ≡ b
and_true true = refl
and_true false = refl

-- A word of ones keeps a bit.
kept_bit : (n k x : ℕ) → k < n → test k (bit_and x (2 ^ n - 1)) ≡ test k x
kept_bit n k x h =
    test-bit_and k x (2 ^ n - 1)
    ∙ ap (λ b. test k x && b) (test_ones n k ∙ lt→ltb k n h)
    ∙ and_true (test k x)

-- Clearing bit `c` of register 7 keeps the others.
other_bit :
    (k c pcap_bit : ℕ) (p : Pcap)
    → register_of pcap_bit ≡ 7
    → bit_and pcap_bit value_mask ≡ 2 ^ c
    → 2 ^ c < 2 ^ 32
    → k < 25
    → k ≢ c
    → test k ((bit_clean pcap_bit p).1.register_value 7) ≡ test k (p.register_value 7)
unfolding bit_clean cached
other_bit k c pcap_bit p reg mask c_small k_small other =
    let v = p.register_value 7 in
    let low = bit_and v (2 ^ 32 - 1 - 2 ^ c) in
    let clean : (bit_clean pcap_bit p).1 ≡ (write_data 7 low (set_value 7 low p)).1 =
      rw (reg, mask, knows) refl in
    let kept : test k (2 ^ 32 - 1 - 2 ^ c) ≡ true =
      test_complement 32 k (2 ^ c) (omega arith) c_small
      ∙ ap not (test_power k c ∙ ne→== k c other) in
    ap (λ x. test k (x.register_value 7)) clean
    ∙ ap (test k) (write_data_value 7 low (set_value 7 low p) knows)
    ∙ kept_bit 25 k low k_small
    ∙ test-bit_and k v (2 ^ 32 - 1 - 2 ^ c)
    ∙ ap (λ b. test k v && b) kept
    ∙ and_true (test k v)

-- On an initialised driver and a chip that is not selected and answers that register 7 holds `v`,
-- of 25 bits: behind the order to switch the power off, all bits of the register but the two that
-- enable the supplies are those of `v`, those of the two voltages among them.
pub pcap_mmc_power_on_leaves :
    (shows : List PinWrite → Bool) (w : Wire) (v k : ℕ) (p : Pcap)
    → p.is_init ≡ true
    → Answers shows p.operate_pin_with_inverter p.rxd_pin_with_inverter w 7 v
    → v < 2 ^ 25
    → Idle p.operate_pin_with_inverter w p
    → k < 25
    → k ≢ 4
    → k ≢ 7
    → test k ((pcap_mmc_power_on shows false p).register_value 7) ≡ test k v
unfolding pcap_mmc_power_on initialised register_of
pcap_mmc_power_on_leaves shows w v k p init answers small idle k_small not_4 not_7 =
    let (_, value, _, _) = read_data-Answers shows w 7 v 0 p knows answers small idle in
    let p1 : Pcap = (read_data shows 7 0 p).2 in
    let same : initialised shows p ≡ p = rw init refl in
    let p2 : Pcap = (write_data 7 (bit_and v vap_masks) p1).1 in
    let p3 : Pcap = (bit_clean vaux3_en p2).1 in
    let off : pcap_mmc_power_on shows false p ≡ (bit_clean vaux2_en p3).1 =
      ap
        (λ q.
          (bit_clean vaux2_en
            (bit_clean vaux3_en
              (write_data 7 (bit_and (read_data shows 7 0 q).1 vap_masks)
                (read_data shows 7 0 q).2).1).1).1)
        same
      ∙ ap
          (λ x.
            (bit_clean vaux2_en (bit_clean vaux3_en (write_data 7 (bit_and x vap_masks) p1).1).1).1)
          value in
    ap (λ x. test k (x.register_value 7)) off
    ∙ other_bit k 4 vaux2_en p3 refl refl (omega arith) k_small not_4
    ∙ other_bit k 7 vaux3_en p2 refl refl (omega arith) k_small not_7
    ∙ ap (test k) (write_data_value 7 (bit_and v vap_masks) p1 knows)
    ∙ kept_bit 25 k (bit_and v vap_masks) k_small
    ∙ kept_bit 32 k v (omega arith)
