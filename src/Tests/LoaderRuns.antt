-- ===== src/Tests/LoaderRuns.antt =====
-- Runs of the loader.
use gen_blob.Base.{
  ℕ, suc, ◌≤◌, true, List, [], ◌∷◌, ◌++◌, Option, none, some, ◌≡◌, ◌⊎◌, refl, arith, replicate, pos,
}
use gen_blob.Text.{strlen, copy_str}
use gen_blob.Hex.{hexasc_to_u32}
use gen_blob.Loader.Device.{Device, FlashPort, usb_stop, jump_to_ram, stx, etx, rs}
use gen_blob.Loader.Dispatch.{Command, flash, rbin}
use gen_blob.Loader.Handlers.{
  ack, handle_command_bin, handle_command_addr, handle_command_jump, handle_command_flash,
}
use gen_blob.Loader.Handlers.Guards.{
  AddressField, FlashField, Flashable, handle_command_addr-AddressField,
  handle_command_flash-Flashable,
}
use gen_blob.Loader.Handlers.Copy.{handle_command_bin-read_bytes}
use gen_blob.Loader.Memory.{write_bytes, read_bytes, sum_data}
use gen_blob.Loader.Send.{parse_send_packet, parse_ack_response}
use gen_blob.Usb.Ep1.{ep1_send}
use gen_blob.Usb.Tx.{get_buf, ezx_usb_xmit}
use gen_blob.Loader.Receive.{reset_global, finish, parse_data, receive}
use gen_blob.Loader.Receive.Buffers.{overlay}
use gen_blob.Loader.Receive.Message.{receive-message}
use gen_blob.Loader.Receive.Overflow.{parse_data_overflow}
use gen_blob.Tests.UsbRuns.{idle_tx}

-- A flash that counts the calls and accepts them all.
abbrev pub port : FlashPort ℕ
port = record {
  flash_unlock_region = λ a n f. (pos 0, suc f);
  flash_erase_region = λ a n f. (pos 0, suc f);
  flash_write_region = λ a bytes n f. (pos 0, suc f);
}

abbrev device : List ℕ → Device ℕ
device recv_data = record {
  recv_cmd = replicate 12 0;
  recv_data = recv_data;
  tx = idle_tx true;
  mem = λ a. 0;
  received_address = 0;
  recv_data_addr = 0;
  flash = 0;
  effects = [];
}

abbrev pub addr_cmd : List ℕ
addr_cmd = b'A' ∷ b'D' ∷ b'D' ∷ b'R' ∷ []

-- The digits of 0xa0200000 with their checksum.
abbrev pub addr_data : List ℕ
addr_data = b'A' ∷ b'0' ∷ b'2' ∷ b'0' ∷ b'0' ∷ b'0' ∷ b'0' ∷ b'0' ∷ b'9' ∷ b'3' ∷ []

abbrev pub empty : Device ℕ
empty = device (replicate 40 0)

-- The message comes in three transfers, behind a byte of an older one.
abbrev pub transfers : List (List ℕ)
transfers =
    (etx ∷ stx ∷ b'A' ∷ b'D' ∷ [])
    ∷ (b'D' ∷ b'R' ∷ rs ∷ b'A' ∷ b'0' ∷ b'2' ∷ b'0' ∷ [])
    ∷ (b'0' ∷ b'0' ∷ b'0' ∷ b'0' ∷ b'9' ∷ b'3' ∷ etx ∷ [])
    ∷ []

receive-message_example :
    receive port transfers (reset_global, empty)
    ≡ finish port true (record empty {
      recv_cmd = overlay (addr_cmd ++ 0 ∷ []) (replicate 12 0);
      recv_data = overlay (addr_data ++ 0 ∷ []) (replicate 40 0);
    })
receive-message_example =
    receive-message port transfers (etx ∷ []) addr_cmd addr_data empty (ground arith) (ground arith)
      (ground arith) (ground arith) (ground arith) (ground arith) (omega arith) (omega arith)
      (omega arith) (omega arith) refl

parse_data_overflow_example : parse_data port (stx ∷ replicate 13 b'A') (reset_global, empty) ≡ none
parse_data_overflow_example =
    parse_data_overflow port (replicate 13 b'A') empty (ground arith) (ground arith) (omega arith)

or_else : Option (Device ℕ) → Device ℕ → Device ℕ
or_else none d = d
or_else (some d') d = d'

addr_at : Device ℕ
addr_at = device (addr_data ++ 0 ∷ [])

addr_done : Device ℕ
addr_done = or_else (handle_command_addr true addr_at) addr_at

addr_runs : handle_command_addr true addr_at ≡ some addr_done
unfolding handle_command_addr or_else addr_done addr_at sum_data hexasc_to_u32 parse_ack_response
    parse_send_packet strlen copy_str get_buf ezx_usb_xmit ep1_send
addr_runs = refl

addr_moves : (addr_done.received_address ≡ 0xa0200000)
unfolding handle_command_addr or_else addr_done addr_at sum_data hexasc_to_u32 parse_ack_response
    parse_send_packet strlen copy_str get_buf ezx_usb_xmit ep1_send
addr_moves = refl

handle_command_addr-AddressField_example :
    (addr_done.received_address ≡ addr_at.received_address)
    ⊎ (AddressField addr_at.recv_data addr_done.received_address
        × (0xa0000000 ≤ addr_done.received_address)
        × (addr_done.received_address ≤ 0xa1000000))
handle_command_addr-AddressField_example =
    handle_command_addr-AddressField addr_at addr_done addr_runs

jump_done : Device ℕ
jump_done = or_else (handle_command_jump true addr_at) addr_at

jump_runs : handle_command_jump true addr_at ≡ some jump_done
unfolding handle_command_jump or_else jump_done addr_at sum_data hexasc_to_u32 parse_ack_response
    parse_send_packet strlen get_buf ezx_usb_xmit ep1_send
jump_runs = refl

jump_jumps : jump_done.effects ≡ usb_stop ∷ jump_to_ram 0xa0200000 ∷ []
unfolding handle_command_jump or_else jump_done addr_at sum_data hexasc_to_u32 parse_ack_response
    parse_send_packet strlen get_buf ezx_usb_xmit ep1_send
jump_jumps = refl

-- The source 0xa0000000, the destination 0x20000, the size 0x20000.
flash_at : Device ℕ
flash_at = device (
    b'A' ∷ b'0' ∷ b'0' ∷ b'0' ∷ b'0' ∷ b'0' ∷ b'0' ∷ b'0' ∷ b'0' ∷ b'0' ∷ b'0' ∷ b'2' ∷ b'0' ∷ b'0'
    ∷ b'0' ∷ b'0' ∷ b'0' ∷ b'0' ∷ b'0' ∷ b'2' ∷ b'0' ∷ b'0' ∷ b'0' ∷ b'0' ∷ b'9' ∷ b'5' ∷ 0 ∷ [])

flash_done : Device ℕ
flash_done = or_else (handle_command_flash port true flash_at) flash_at

flash_runs : handle_command_flash port true flash_at ≡ some flash_done
unfolding handle_command_flash or_else flash_done flash_at sum_data hexasc_to_u32 parse_ack_response
    parse_send_packet strlen get_buf ezx_usb_xmit ep1_send
flash_runs = refl

flash_flashes : flash_done.flash ≡ 3
unfolding handle_command_flash or_else flash_done flash_at sum_data hexasc_to_u32 parse_ack_response
    parse_send_packet strlen get_buf ezx_usb_xmit ep1_send
flash_flashes = refl

handle_command_flash-Flashable_example :
    (flash_done.flash ≡ flash_at.flash)
    ⊎ ((source : ℕ) × (dest : ℕ) × (size : ℕ) × FlashField flash_at.recv_data source dest size
        × Flashable source dest size)
handle_command_flash-Flashable_example =
    handle_command_flash-Flashable port flash_at flash_done flash_runs

abbrev table : List (List ℕ × Command)
table = (b'F' ∷ b'L' ∷ 0 ∷ [], flash) ∷ (b'R' ∷ 0 ∷ [], rbin) ∷ []

-- Eight bytes, in an array at an odd address.
abbrev eight : List ℕ
eight = 1 ∷ 2 ∷ 3 ∷ 4 ∷ 5 ∷ 6 ∷ 7 ∷ 8 ∷ []

abbrev bin_at : Device ℕ
bin_at = record (device (0 ∷ 8 ∷ (eight ++ replicate 5 9))) {
  recv_data_addr = 1;
  received_address = 0xa0200000;
}

handle_command_bin-read_bytes_example :
    (ds : List ℕ) × (handle_command_bin true bin_at
      ≡ ack none (record bin_at { recv_data = ds; mem = write_bytes bin_at.mem 0xa0200000 eight }))
    × (read_bytes (write_bytes bin_at.mem 0xa0200000 eight) 0xa0200000 8 ≡ eight)
handle_command_bin-read_bytes_example =
    handle_command_bin-read_bytes 0 8 eight (replicate 5 9) bin_at refl refl refl (omega arith)
      (omega arith)
