-- ===== src/Tests/PcapRuns.antt =====
-- Runs of the accesses of src/blob/pcap.c.
use gen_blob.Base.{
  ◌-◌, Bool, true, false, List, [], ◌∷◌, ◌≡◌, ◌∙◌, refl, ap, arith, length, test, bit_and,
}
use gen_blob.Pcap.{
  Pcap, PinWrite, is_one_of, registers, value_mask, pcap_success, write_data, read_data,
  register_of, bit_set, bit_clean, get_bit_from_buffer,
}
use gen_blob.Pcap.Wire.{Wire, wire}
use gen_blob.Pcap.Written.{Idle}
use gen_blob.Pcap.Registers.{frame_of, write_data_frame}
use gen_blob.Pcap.Bits.{get_bit_from_buffer-bit_set}
use gen_blob.Pcap.Setup.{vaux3_en, pcap_mmc_power_on}
use gen_blob.Pcap.Power.{pcap_mmc_power_on_leaves}
use gen_blob.Pcap.Sampling.{Answers}
use gen_blob.Pcap.Reading.{read_data-Answers}

-- The wires are all low.
abbrev low : Wire
low = record { clock = false; data_level = false; selected = false; bits = []; frames = [] }

-- A driver that has not used them.
abbrev fresh : Bool → Pcap
fresh inverted = record {
  operate_pin_with_inverter = false;
  rxd_pin_with_inverter = inverted;
  register_value = λ r. 0;
  is_init = true;
  pins = [];
}

knows_vreg : is_one_of registers 7 ≡ true
unfolding is_one_of
knows_vreg = refl

fresh-Idle : Idle false low (fresh false)
unfolding wire
fresh-Idle = refl

write_data_frame_example :
    ((write_data 7 0xff000b60 (fresh false)).0 ≡ pcap_success)
    × ((wire false low (write_data 7 0xff000b60 (fresh false)).1.pins).frames
        ≡ frame_of 7 0xff000b60 ∷ (wire false low []).frames)
    × ((write_data 7 0xff000b60 (fresh false)).1.register_value 7 ≡ bit_and 0xff000b60 value_mask)
    × Idle false low (write_data 7 0xff000b60 (fresh false)).1
write_data_frame_example = write_data_frame 7 0xff000b60 low (fresh false) knows_vreg fresh-Idle

-- A chip whose register holds 0xb60, which shows the bit that the clock has come to.
abbrev chip : List PinWrite → Bool
chip pins = test (31 - length (wire false low pins).bits) 0xb60

chip-Answers : Answers chip false false low 7 0xb60
chip-Answers pins d bs fs k h count =
    let place : 31 - length (false ∷ false ∷ false ∷ true ∷ true ∷ true ∷ bs) ≡ k = omega arith in
    ap (λ u. test (31 - length u.bits) 0xb60) h ∙ ap (λ i. test i 0xb60) place

read_data-Answers_example :
    ((read_data chip 7 0 (fresh false)).0 ≡ pcap_success)
    × ((read_data chip 7 0 (fresh false)).1 ≡ 0xb60)
    × ((read_data chip 7 0 (fresh false)).2.register_value 7 ≡ 0xb60)
    × Idle false low (read_data chip 7 0 (fresh false)).2
read_data-Answers_example =
    read_data-Answers chip low 7 0xb60 0 (fresh false) knows_vreg chip-Answers (omega arith)
      fresh-Idle

knows_vaux3 : is_one_of registers (register_of vaux3_en) ≡ true
unfolding is_one_of register_of
knows_vaux3 = refl

get_bit_from_buffer-bit_set_example :
    ((bit_set vaux3_en (fresh false)).0 ≡ pcap_success)
    × (get_bit_from_buffer vaux3_en (bit_set vaux3_en (fresh false)).1 ≡ 1)
    × ((bit_clean vaux3_en (fresh false)).0 ≡ pcap_success)
    × (get_bit_from_buffer vaux3_en (bit_clean vaux3_en (fresh false)).1 ≡ 0)
get_bit_from_buffer-bit_set_example =
    get_bit_from_buffer-bit_set vaux3_en (fresh false) knows_vaux3 (omega arith)

pcap_mmc_power_on_leaves_example :
    test 8 ((pcap_mmc_power_on chip false (fresh false)).register_value 7) ≡ test 8 0xb60
pcap_mmc_power_on_leaves_example =
    pcap_mmc_power_on_leaves chip low 0xb60 8 (fresh false) refl chip-Answers (omega arith)
      fresh-Idle (omega arith) (λ e. omega arith) (λ e. omega arith)
