-- ===== src/Loader/Handlers.antt =====
-- The commands of src/blob/bl_cmds_handler.c that act: ADDR, BIN, RBIN, FLASH, JUMP, POWER_DOWN.
-- `has_data` is false where the handler gets NULL; otherwise its `data_ptr` is the array recvData.
pub mod Guards
pub mod Copy
use gen_blob.Base.{
  ℕ, zero, suc, ◌+◌, ◌-◌, ◌/◌, ◌%◌, Bool, true, false, not, ◌&&◌, ◌||◌, List, [], ◌∷◌, ◌++◌, Option,
  none, some, ltb, leb, ◌==◌, if◌then◌else◌, is_neg, u8, u16, u32, ◌<<<◌, length, get_elem?, store,
  take, drop, replicate, ◌>>=◌, add_u32,
}
use gen_blob.Text.{copy_str}
use gen_blob.Hex.{hexasc_to_u32}
use gen_blob.Usb.Tx.{ep1_bus_reset}
use gen_blob.Loader.Device.{Device, FlashPort, usb_stop, jump_to_ram, power_down}
use gen_blob.Loader.Err
use gen_blob.Loader.Memory.{write_bytes, read_bytes, sum_data, sum_list}
use gen_blob.Loader.Send.{parse_send_packet, parse_err_response, parse_ack_response}

-- parser_valid_address
unfoldable pub parser_valid_address : ℕ → Bool
parser_valid_address addr = leb 0xa0000000 addr && leb addr 0xa1000000

-- The conditions of handle_command_flash on its numbers.
unfoldable pub flash_size_bad : ℕ → Bool
flash_size_bad size = ltb 0x800000 size || not (size % 0x20000 == 0)

unfoldable pub flash_address_bad : ℕ → ℕ → ℕ → Bool
flash_address_bad source dest size =
    ltb 0x4000000 (add_u32 dest size)
    || not (dest % 0x20000 == 0)
    || ltb source 0xa0000000
    || not (source % 8 == 0)
    || ltb 0xa2000000 (add_u32 source size)

-- `for (i = 0; i < data_size; i++, temp_ptr--) temp_ptr[k] = temp_ptr[0]`, from the place `at + n`
-- down.
pub shift_right : ℕ → ℕ → ℕ → List ℕ → Option (List ℕ)
shift_right k at zero ds = some ds
shift_right k at (suc n) ds = do
  b ← get_elem? ds (at + n)
  ds' ← store ds (at + n + k) b
  shift_right k at n ds'

module _ {Flash : Type 0} where
  -- An answer to the host.
  abbrev pub error : ℕ → Device Flash → Option (Device Flash)
  error code d = do t ← parse_err_response code d.tx; some (record d { tx = t })

  abbrev pub ack : Option (List ℕ) → Device Flash → Option (Device Flash)
  ack data_ptr d = do t ← parse_ack_response d.recv_cmd data_ptr d.tx; some (record d { tx = t })

  abbrev pub send : List ℕ → List ℕ → ℕ → Device Flash → Option (Device Flash)
  send keyword response size d = do
    (t, _) ← parse_send_packet keyword response size d.tx
    some (record d { tx = t })

  set_address : ℕ → Device Flash → Option (Device Flash)
  set_address addr d = do
    response ← copy_str (replicate 64 0) d.recv_data
    ack (some response) (record d { received_address = addr })

  unfoldable pub handle_command_addr : Bool → Device Flash → Option (Device Flash)
  unfolding set_address parser_valid_address
  handle_command_addr false d = error Err.data_invalid d
  handle_command_addr true d = do
    calc_csum ← sum_data 0 d.recv_data 8
    addr ← hexasc_to_u32 d.recv_data 8
    rx_csum ← hexasc_to_u32 (drop 8 d.recv_data) 2
    if not (u8 rx_csum == calc_csum)
        then error Err.bad_checksum d
        else if parser_valid_address addr
        then set_address addr d
        else error Err.address_invalid d

  -- The data is first moved to a word boundary, then copied to the address of the last ADDR.
  copy_to_ram : ℕ → Device Flash → Option (Device Flash)
  unfolding shift_right
  copy_to_ram data_size d = do
    let nr_shift_right = (4 - (d.recv_data_addr + 2) % 4) % 4
    ds ←
        (if nr_shift_right == 0
          then some d.recv_data
          else shift_right nr_shift_right 2 data_size d.recv_data)
    let block = take data_size (drop (2 + nr_shift_right) ds)
    let d' = record d { recv_data = ds; mem = write_bytes d.mem d.received_address block }
    if ltb (length block) data_size then none else ack none d'

  unfoldable pub handle_command_bin : Bool → Device Flash → Option (Device Flash)
  unfolding copy_to_ram
  handle_command_bin false d = error Err.data_invalid d
  handle_command_bin true d = do
    msb ← get_elem? d.recv_data 0
    lsb ← get_elem? d.recv_data 1
    let data_size = u16 (msb <<< 8 + lsb)
    if not (data_size % 8 == 0) then error Err.packet_sz_invalid d else copy_to_ram data_size d

  -- The bytes go to `response[8192]`, with their checksum behind them.
  answer_bytes : ℕ → ℕ → Device Flash → Option (Device Flash)
  answer_bytes addr size d =
      let bytes = read_bytes d.mem addr size in
      let response = bytes ++ sum_list 0 bytes ∷ [] in
      if ltb size 8192
      then send (b'R' ∷ b'B' ∷ b'I' ∷ b'N' ∷ 0 ∷ []) response (u16 (size + 1)) d
      else none

  unfoldable pub handle_command_rbin : Bool → Device Flash → Option (Device Flash)
  unfolding answer_bytes
  handle_command_rbin false d = error Err.data_invalid d
  handle_command_rbin true d = do
    calc_csum ← sum_data 0 d.recv_data 12
    addr ← hexasc_to_u32 d.recv_data 8
    size ← hexasc_to_u32 (drop 8 d.recv_data) 4
    rx_csum ← hexasc_to_u32 (drop 12 d.recv_data) 2
    if not (u8 rx_csum == calc_csum)
        then error Err.bad_checksum d
        else answer_bytes addr (u16 size) d

  -- pxa_usb_stop resets the endpoints: endpoint 2 has given up its buffer already, when a command that
  -- came through it runs.
  unfoldable pub handle_command_jump : Bool → Device Flash → Option (Device Flash)
  handle_command_jump false d = error Err.data_invalid d
  handle_command_jump true d = do
    calc_csum ← sum_data 0 d.recv_data 8
    jump_addr ← hexasc_to_u32 d.recv_data 8
    rx_csum ← hexasc_to_u32 (drop 8 d.recv_data) 2
    if calc_csum == u8 rx_csum
        then (do
          d' ← ack (some d.recv_data) d
          some (record d' {
            tx = ep1_bus_reset d'.tx;
            effects = d'.effects ++ usb_stop ∷ jump_to_ram jump_addr ∷ [];
          }))
        else error Err.bad_checksum d

  unfoldable pub handle_command_pwr_down : Bool → Device Flash → Option (Device Flash)
  handle_command_pwr_down has_data d = do
    d' ← ack none d
    some (record d' { effects = d'.effects ++ power_down ∷ [] })

module _ {Flash : Type 0} (port : FlashPort Flash) where
  open port use {flash_unlock_region, flash_erase_region, flash_write_region}

  write_flash : ℕ → ℕ → ℕ → Device Flash → Option (Device Flash)
  write_flash source dest size d =
      let (rv, flash) = flash_write_region dest (λ i. d.mem (u32 (source + i))) size d.flash in
      let d' = record d { flash = flash } in
      if is_neg rv then error Err.programming d' else ack none d'

  erase_flash : ℕ → ℕ → ℕ → Device Flash → Option (Device Flash)
  unfolding write_flash
  erase_flash source dest size d =
      let (rv, flash) = flash_erase_region dest (size / 4) d.flash in
      let d' = record d { flash = flash } in
      if is_neg rv then error Err.erase_failed d' else write_flash source dest size d'

  unlock_flash : ℕ → ℕ → ℕ → Device Flash → Option (Device Flash)
  unfolding erase_flash
  unlock_flash source dest size d =
      let (rv, flash) = flash_unlock_region dest (size / 4) d.flash in
      let d' = record d { flash = flash } in
      if is_neg rv then error Err.flash_not_erased d' else erase_flash source dest size d'

  unfoldable pub handle_command_flash : Bool → Device Flash → Option (Device Flash)
  unfolding unlock_flash flash_size_bad flash_address_bad
  handle_command_flash false d = error Err.data_invalid d
  handle_command_flash true d = do
    calc_csum ← sum_data 0 d.recv_data 24
    source ← hexasc_to_u32 d.recv_data 8
    dest ← hexasc_to_u32 (drop 8 d.recv_data) 8
    size ← hexasc_to_u32 (drop 16 d.recv_data) 8
    rx_csum ← hexasc_to_u32 (drop 24 d.recv_data) 2
    if not (u8 rx_csum == calc_csum)
        then error Err.bad_checksum d
        else if flash_size_bad size
        then error Err.flash_size_invalid d
        else if flash_address_bad source dest size
        then error Err.address_invalid d
        else unlock_flash source dest size d
