-- ===== src/Loader/Device.antt =====
-- The state that the command handlers of the flash loader share, and the constants of
-- include/blob/bl_parser.h and src/blob/bl_parser.c.
use gen_blob.Base.{ℕ, List, ℤ}
use gen_blob.Usb.Tx.{Tx}

-- Control characters of the protocol.
abbrev pub stx : ℕ
stx = 0x02

abbrev pub etx : ℕ
etx = 0x03

abbrev pub rs : ℕ
rs = 0x1e

abbrev pub max_command_str_size : ℕ
max_command_str_size = 12

abbrev pub max_rx_data_size : ℕ
max_rx_data_size = 8204

-- BUFSZ, and MAX_RESPONSE_SIZE of bl_parser.c
abbrev pub bufsz : ℕ
bufsz = 5000

abbrev pub max_response_size : ℕ
max_response_size = 5000

abbrev pub max_ack_response_size : ℕ
max_ack_response_size = 32

-- What a handler makes the hardware do, beside the packets.
pub data Effect : Type 0 where
  usb_stop : Effect
  jump_to_ram : ℕ → Effect
  power_down : Effect

-- `recv_cmd` and `recv_data` are the parser's two arrays, `mem` the bytes of the address space as
-- the processor reads them, `received_address` is blvar_received_address_ptr, and
-- `recv_data_addr` the address of recvData. The type `Flash` is
-- the state of the flash chip with its driver.
pub record Device (Flash : Type 0) : Type 0 where
  pub recv_cmd : List ℕ
  pub recv_data : List ℕ
  pub tx : Tx
  pub mem : ℕ → ℕ
  pub received_address : ℕ
  pub recv_data_addr : ℕ
  pub flash : Flash
  pub effects : List Effect

-- The functions of src/blob/flash.c that the loader calls. The write gets the bytes of the source
-- from memory.
pub record FlashPort (Flash : Type 0) : Type 0 where
  pub flash_unlock_region : ℕ → ℕ → Flash → ℤ × Flash
  pub flash_erase_region : ℕ → ℕ → Flash → ℤ × Flash
  pub flash_write_region : ℕ → (ℕ → ℕ) → ℕ → Flash → ℤ × Flash
