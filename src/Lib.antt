-- ===== src/Lib.antt =====
-- gen-blob, a boot loader for the PXA270 phones of the EZX family, descended from blob. The parts
-- that decide what a host can do to a phone are modelled: the flash loader's protocol over USB,
-- from the interrupts of the USB controller to the commands, and what the commands rest on (the table
-- of flash blocks, the flash drivers, the hexadecimal conversions, the string functions); the boot
-- menu; the tests of the memory; the commands that look at memory; the access to the power chip;
-- and, of the diagnostics, the command line and its history.
--
-- How the parts interact. The interrupt of the USB controller (src/blob/usb_ctl.c) moves a state
-- machine and calls the handlers of its three endpoints; a reset of the bus opens them all again.
-- Endpoint 0 shows the host the descriptors. Endpoint 2 hands every packet to parse_data
-- (src/blob/bl_parser.c), which collects a message STX command [RS data] ETX in recvCmd and recvData
-- and then runs handle_command; that maps the command's name by a table and calls a handler of
-- src/blob/bl_cmds_handler.c. Handlers answer through parse_send_packet, which fills one of two
-- buffers and gives it to src/blob/usb-mot1.c, which sends it by src/blob/usb_ep1.c or keeps it
-- until the packet before it is done. FLASH calls src/blob/flash.c.
--
-- Files.
--   Base and below: native numbers, u8, u16 and u32 with their wrap-around, arrays with their
--     bounds, C integers, and Option with >>= for what can fault.
--   Text: strlen, strcpy, strcmp, strncmp, strncpy, strlcpy of src/lib/strlen.c, src/lib/strncmp.c and
--     src/lib/strncpy.c; util_string_equal and util_copy_str of src/blob/bl_utility.c.
--   Number: digitvalue, xdigitvalue and strtou32 of src/lib/strtou32.c.
--   Hex: util_hexasc_to_u32, util_u8_to_hexasc, util_u16_to_hexasc and util_u32_to_hexasc of
--     src/blob/bl_utility.c.
--   Usb/Ep1: src/blob/usb_ep1.c. Usb/Tx: ezx_usb_xmit and tx_callback of src/blob/usb-mot1.c with
--     get_buf and mybuf_reset of src/blob/bl_parser.c. Usb/Tx/Queue is the abstract view: a queue of
--     at most two packets, and what it means that a driver's state holds one.
--   Usb/Control: the state machine of src/blob/usb_ctl.c and the calls of its client.
--   Usb/Ep0: src/blob/usb_ep0.c. Usb/Ep0/Stage says what packets make a data stage.
--   Usb/Ep2: src/blob/usb_ep2.c. Usb/Rx: rx_callback of src/blob/usb-mot1.c, which joins it to parse_data.
--   Usb/Descriptors: initialize_descriptors, and what usb_mot_open and ezx_usb_open write.
--   Usb/Driver: udc_int_hndlr of src/blob/usb_ctl.c on the state of all of these, a record Driver.
--   Loader/Device and Loader/Err: the constants of include/blob/bl_parser.h, and the state that the
--     handlers share (a record Device: the two arrays, the USB driver, the memory, the load
--     address, the flash). Loader/Memory: bytes and words at 32-bit addresses.
--   Loader/Send: parse_send_packet, parse_err_response, parse_ack_response.
--   Loader/Handlers: ADDR, BIN, RBIN, FLASH, JUMP, POWER_DOWN. Loader/Queries: RQRC, RQHW, RQVN, RQCS.
--   Loader/Dispatch: the command table, map_command, handle_command.
--   Loader/Receive: parse_data with its static variables as a record Receiver, and reset_global. The
--     gotos and early returns of the C function are one definition for each of its stages.
--   Flash: init_flash, flash_erase_region, find_block, address_range_to_block_range,
--     do_flash_lock, flash_lock_region, flash_unlock_region and flash_query_region of src/blob/flash.c.
--     Flash/Program: flash_program_buf and flash_write_region of the same file.
--     Flash/Intel16: the driver src/blob/intel16.c, on the same bus. Flash/Intel32: the driver
--     src/blob/intel32.c, on a bus of 32 bits.
--   History: src/diag/command_hist.c.
--   Command: parse_args, get_num_command_matches and parse_command of src/lib/command.c.
--     Command/Words is the abstract view, the words of a line. Command/Input: GetCommand.
--   Init: src/lib/init.c.
--   Memtest: the moving inversion and the address test of src/blob/chkmem.c; Memtest/Hardcore: its
--     third method and the list of failed addresses; Memtest/Chkmem: the command.
--   Menu: grub_malloc, grub_file_read and get_line of src/blob/menu.c; Menu/Entries: its commands,
--     its entries and parse_conf_file; Menu/Select: show_menu and boot_menu of src/blob/boot_modes.c.
--   Boot: enter_simple_pass_through_mode of src/blob/boot_modes.c, which puts these together.
--   Debug: the six commands of src/blob/debug.c, with MyMemCpy of src/lib/util.c.
--   Pcap: the registers of the power chip and the serial bus in src/blob/pcap.c; Pcap/Setup: its
--     set-up. Pcap/Wire is the abstract view, what the chip sees of the writes to the pins.
--   Tests: runs on concrete inputs.
--
-- Conventions. A pointer into an array is the rest of the array, or an index; a char is unsigned,
-- as the ARM compilers have it. A function whose run leaves an array, shifts by the width of a word
-- or more, or does not end, returns `none`. All loops recurse on their data or on a count. Some use
-- fuel. `transmit` runs the interrupts of one transfer: the length of the buffer and one more are
-- enough, since each interrupt sends a byte at least. `erase_loop` is the erasing loop, which does
-- not end where its pointer wraps around below the end: as much fuel as there are blocks to erase
-- is enough where it does not. `sh_write` is the loop that sends a data stage on endpoint 0: one
-- more than the bytes it has is enough, since each turn but an empty last one sends a byte at
-- least. The loops of Flash/Program get one more than their bytes, since each turn takes at least
-- one. The loops of Flash/Intel16 and Flash/Intel32 that poll the chip have as many turns as are
-- given; Settles and SettleBoth say that the chips take fewer. The loops of Memtest need one turn
-- more than the words of the area. parse_conf_file takes a turn for a line and one more. The rows
-- that dump shows are counted by fuel, and its loop does not end where the address wraps around.
-- What the hardware shows is an argument: the registers of endpoint 0 are functions of the number
-- of reads so far, and an interrupt of endpoint 2 comes with the contents of its FIFO.
--
-- Not modelled. The flash chip is a parameter: its 16-bit accesses (the record Bus), the driver
-- that the work on regions calls (FlashDriver), and for the loader's commands the functions that
-- work on it (FlashPort). So are what the power chip shows, the functions that order the bits of a
-- word for two flash chips, and the memory under test (Ram). Left out are the drawing on the
-- display, the driver of the serial line and the echo of what is typed, the set-up of the hardware
-- and the assembly files, with the writes to the USB controller's mask and enable registers; the
-- file systems and the parameter block. The arrays of the loader are taken to lie apart from the
-- memory that the host reads and writes.
pub mod Base
pub mod Text
pub mod Number
pub mod Hex
pub mod Usb
pub mod Loader
pub mod History
pub mod Flash
pub mod Command
pub mod Init
pub mod Memtest
pub mod Menu
pub mod Boot
pub mod Debug
pub mod Pcap
pub mod Tests
