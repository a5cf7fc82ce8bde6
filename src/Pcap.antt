-- ===== src/Pcap.antt =====
-- The access to the power chip in src/blob/pcap.c, which drives the wires of its serial bus by hand.
-- The state keeps the writes to the pins, the last first; what the input pin shows is an argument, a
-- function of these writes.
pub mod Wire
pub mod Written
pub mod Registers
pub mod Sampling
pub mod Reading
pub mod Setup
pub mod Bits
pub mod Power
use gen_blob.Base.{
  ℕ, zero, suc, ◌-◌, ◌*◌, ◌/◌, ◌^◌, Bool, false, not, ◌||◌, List, [], ◌∷◌, ◌==◌, if◌then◌else◌,
  bit_and, bit_or,
}

pub data Pin : Type 0 where
  clk ce mosi miso : Pin

-- A write to GPSR or GPCR of a pin, to its direction, or to the two registers that stop the port.
pub data PinWrite : Type 0 where
  level : Pin → Bool → PinWrite
  mode_out : Pin → Bool → PinWrite
  port_off : PinWrite

-- The three static variables and pcap_is_init, with the writes so far.
pub record Pcap : Type 0 where
  pub operate_pin_with_inverter : Bool
  pub rxd_pin_with_inverter : Bool
  pub register_value : ℕ → ℕ
  pub is_init : Bool
  pub pins : List PinWrite

unfoldable pub pin : PinWrite → Pcap → Pcap
pin w p = record p { pins = w ∷ p.pins }

unfoldable pub gpio_clk_control : ℕ → Pcap → Pcap
gpio_clk_control bit_value = pin (level clk (not (bit_value == 0)))

unfoldable pub gpio_frm_control : ℕ → Pcap → Pcap
gpio_frm_control bit_value p =
    if p.operate_pin_with_inverter
    then pin (level ce (bit_value == 0)) p
    else pin (level ce (not (bit_value == 0))) p

unfoldable pub gpio_txd_control : ℕ → Pcap → Pcap
gpio_txd_control bit_value = pin (level mosi (not (bit_value == 0)))

unfoldable pub gpio_rxd_get_status : (List PinWrite → Bool) → Pcap → ℕ
gpio_rxd_get_status shows p =
    if p.rxd_pin_with_inverter
    then (if shows p.pins then 0 else 1)
    else (if shows p.pins then 1 else 0)

-- The clock goes up and down again.
unfoldable pub pulse : Pcap → Pcap
pulse p = gpio_clk_control 0 (gpio_clk_control 1 p)

-- The three writes that prepare for a frame, and the one that starts it.
unfoldable pub start_frame : Pcap → Pcap
start_frame p = gpio_frm_control 1 (gpio_txd_control 0 (gpio_frm_control 0 (gpio_clk_control 0 p)))

unfoldable pub write_loop : ℕ → ℕ → ℕ → Pcap → Pcap
write_loop zero pcap_value loop_value p = p
write_loop (suc i) pcap_value loop_value p =
    write_loop i pcap_value (loop_value / 2)
      (pulse (gpio_txd_control (bit_and pcap_value loop_value) p))

unfoldable pub gpio_write : ℕ → Pcap → Pcap
gpio_write pcap_value p = gpio_frm_control 0 (write_loop 32 pcap_value 0x80000000 (start_frame p))

-- The five turns that send the number of the register.
unfoldable pub address_loop : ℕ → ℕ → ℕ → Pcap → Pcap
address_loop zero register_number loop_value p = p
address_loop (suc i) register_number loop_value p =
    address_loop i register_number (loop_value / 2)
      (pulse (gpio_txd_control (bit_and register_number (loop_value / 0x04000000)) p))

-- The turns that read the value.
unfoldable pub read_loop : (List PinWrite → Bool) → ℕ → ℕ → ℕ → Pcap → ℕ × Pcap
read_loop shows zero loop_value temp_value p = (temp_value, p)
read_loop shows (suc i) loop_value temp_value p =
    read_loop shows i (loop_value / 2)
      (bit_or temp_value (loop_value * gpio_rxd_get_status shows p)) (pulse p)

unfoldable pub gpio_read : (List PinWrite → Bool) → ℕ → Pcap → ℕ × Pcap
gpio_read shows register_number p =
    let p1 = pulse (gpio_txd_control 0 (start_frame p)) in
    let p2 = pulse (address_loop 5 register_number 0x40000000 p1) in
    let result = read_loop shows 25 0x01000000 0 p2 in (result.0, gpio_frm_control 0 result.1)

abbrev pub value_mask : ℕ
value_mask = 0x01ffffff

abbrev pub address_mask : ℕ
address_mask = 0x7c000000

abbrev pub write_op_bit : ℕ
write_op_bit = 0x80000000

abbrev pub pcap_success : ℕ
pcap_success = 0

abbrev pub pcap_error_register : ℕ
pcap_error_register = 0x10000001

abbrev pub pcap_bit_error : ℕ
pcap_bit_error = 0xff000000

-- The registers that the `switch` of every function names.
abbrev pub registers : List ℕ
registers =
    0x00 ∷ 0x01 ∷ 0x02 ∷ 0x07 ∷ 0x09 ∷ 0x0a ∷ 0x0b ∷ 0x0c ∷ 0x0d ∷ 0x14 ∷ 0x15 ∷ 0x1a ∷ 0x1b ∷ []

unfoldable pub is_one_of : List ℕ → ℕ → Bool
is_one_of [] r = false
is_one_of (x ∷ xs) r = r == x || is_one_of xs r

-- A write to an element of ssp_pcap_registerValue.
unfoldable pub set_value : ℕ → ℕ → Pcap → Pcap
set_value r v p = record p { register_value = λ x. if x == r then v else p.register_value x }

unfoldable pub write_data : ℕ → ℕ → Pcap → ℕ × Pcap
write_data r value p =
    let masked = bit_and value value_mask in
    if is_one_of registers r
    then (
      pcap_success,
      gpio_write (bit_or (bit_or write_op_bit (r * 2 ^ 26)) masked) (set_value r masked p),
    )
    else (pcap_error_register, p)

-- With what was in the variable of the caller, which an error leaves as it is.
unfoldable pub read_data : (List PinWrite → Bool) → ℕ → ℕ → Pcap → ℕ × ℕ × Pcap
read_data shows r old p =
    let result = gpio_read shows r p in
    if is_one_of registers r
    then (pcap_success, result.0, set_value r (bit_and result.0 value_mask) result.1)
    else (pcap_error_register, old, p)

-- The register of a bit, cut to 8 bits by its type.
unfoldable pub register_of : ℕ → ℕ
register_of pcap_bit = bit_and pcap_bit address_mask / 2 ^ 26

-- The value of the register with the bits, cleared first in the interrupt register.
unfoldable pub cached : ℕ → Pcap → ℕ
cached r p = if r == 0 then 0 else p.register_value r

unfoldable pub bit_set : ℕ → Pcap → ℕ × Pcap
bit_set pcap_bit p =
    let r = register_of pcap_bit in
    let v = bit_or (cached r p) (bit_and pcap_bit value_mask) in
    if is_one_of registers r
    then (pcap_success, (write_data r v (set_value r v p)).1)
    else (pcap_error_register, p)

unfoldable pub bit_clean : ℕ → Pcap → ℕ × Pcap
bit_clean pcap_bit p =
    let r = register_of pcap_bit in
    let v = bit_and (cached r p) (2 ^ 32 - 1 - bit_and pcap_bit value_mask) in
    if is_one_of registers r
    then (pcap_success, (write_data r v (set_value r v p)).1)
    else (pcap_error_register, p)

unfoldable pub get_bit_from_buffer : ℕ → Pcap → ℕ
get_bit_from_buffer pcap_bit p =
    let r = register_of pcap_bit in
    if is_one_of registers r
    then (if bit_and (bit_and pcap_bit value_mask) (p.register_value r) == 0 then 0 else 1)
    else pcap_bit_error

unfoldable pub get_bit_from_pcap : (List PinWrite → Bool) → ℕ → Pcap → ℕ × Pcap
get_bit_from_pcap shows pcap_bit p =
    let r = register_of pcap_bit in
    let result = read_data shows r 0 p in
    if is_one_of registers r
    then (if bit_and (bit_and pcap_bit value_mask) result.1 == 0 then 0 else 1, result.2)
    else (pcap_bit_error, p)

unfoldable pub get_register_value_from_buffer : ℕ → Pcap → ℕ
get_register_value_from_buffer r p =
    if is_one_of registers r then p.register_value r else pcap_error_register
