-- ===== src/Pcap/Setup.antt =====
-- The set-up of the chip in src/blob/pcap.c, and the power of the cards and of the USB wires.
use gen_blob.Base.{
  ℕ, zero, suc, Bool, true, false, List, [], ◌∷◌, ◌==◌, if◌then◌else◌, bit_and, bit_or,
}
use gen_blob.Pcap.{
  Pcap, PinWrite, level, mode_out, port_off, clk, ce, mosi, miso, pin, set_value, write_data,
  read_data, bit_set, bit_clean, pcap_success,
}

-- Whether register 1 gives back what was written to it.
unfoldable pub test_pcap_cs_rxd : (List PinWrite → Bool) → Pcap → Bool × Pcap
test_pcap_cs_rxd shows p =
    let result = read_data shows 1 0 (write_data 1 0x0003ffff p).1 in
    (result.1 == 0x0003ffff, result.2)

-- A try with the two inverters as given, unless an earlier one has succeeded.
unfoldable pub attempt : (List PinWrite → Bool) → Bool → Bool → Bool × Pcap → Bool × Pcap
attempt shows operate rxd (true, p) = (true, p)
attempt shows operate rxd (false, p) = test_pcap_cs_rxd shows (
    pin (level ce operate)
      (record p { operate_pin_with_inverter = operate; rxd_pin_with_inverter = rxd }))

-- The loop that reads the registers.
unfoldable pub read_all : (List PinWrite → Bool) → ℕ → ℕ → Pcap → Pcap
read_all shows zero i p = p
read_all shows (suc n) i p =
    let result = read_data shows i 0 p in
    let value = if result.0 == pcap_success then result.1 else 0 in
    read_all shows n (suc i) (set_value i value result.2)

unfoldable pub gpio_init : (List PinWrite → Bool) → Pcap → Pcap
gpio_init shows p =
    let pins_set = pin (mode_out miso false) (
      pin (mode_out mosi true)
        (pin (mode_out ce true) (pin (mode_out clk true) (pin port_off p)))) in
    let found = attempt shows true true (
      attempt shows true false
        (attempt shows false true (attempt shows false false (false, pins_set)))) in
    if found.0 then read_all shows 32 0 (write_data 1 0x0013ffff found.1).1 else found.1

-- `if (!pcap_is_init)`
unfoldable pub initialised : (List PinWrite → Bool) → Pcap → Pcap
initialised shows p = if p.is_init then p else gpio_init shows (record p { is_init = true })

unfoldable pub pcap_switch_off_usb : (List PinWrite → Bool) → Pcap → Pcap
pcap_switch_off_usb shows p = (bit_clean 0x50000004 (initialised shows p)).1

unfoldable pub pcap_switch_on_usb : (List PinWrite → Bool) → Pcap → Pcap
pcap_switch_on_usb shows p = (bit_set 0x50000004 (initialised shows p)).1

unfoldable pub clean_all : List ℕ → Pcap → Pcap
clean_all [] p = p
clean_all (b ∷ bs) p = clean_all bs (bit_clean b p).1

-- With 0 for the touch screen's port.
unfoldable pub ssp_pcap_open : ℕ → Pcap → Pcap
ssp_pcap_open port_type p =
    let p1 = (bit_set 0x00000002 (bit_set 0x00100000 (bit_clean 0x24200000 p).1).1).1 in
    if port_type == 0
    then clean_all
        (0x04000002 ∷ 0x04100000 ∷ 0x28100000 ∷ 0x28200000 ∷ 0x24000400 ∷ 0x24000800 ∷ 0x24001000
          ∷ 0x24002000 ∷ 0x24004000 ∷ 0x24008000 ∷ 0x24010000 ∷ [])
        p1
    else p

abbrev pub vaux2_en : ℕ
vaux2_en = 0x1c000010

abbrev pub vaux3_en : ℕ
vaux3_en = 0x1c000080

-- VAP_TF_MASK | VAP_SD_MASK
abbrev pub vap_masks : ℕ
vap_masks = bit_or 0xfffff0ff 0xffffff9f

unfoldable pub pcap_mmc_power_on : (List PinWrite → Bool) → Bool → Pcap → Pcap
pcap_mmc_power_on shows on p =
    let result = read_data shows 7 0 (initialised shows p) in
    let value = bit_and result.1 vap_masks in
    if on
    then (bit_set vaux2_en
        (bit_set vaux3_en (write_data 7 (bit_or value (bit_or 0xb00 0x60)) result.2).1).1).1
    else (bit_clean vaux2_en (bit_clean vaux3_en (write_data 7 value result.2).1).1).1
