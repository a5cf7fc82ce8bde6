-- ===== src/Loader/Err.antt =====
-- BLOADER_ERR_* of include/blob/bl_parser.h: a code with BLOADER_ALWAYS_SET_BIT.
use gen_blob.Base.{ℕ}

abbrev pub bad_checksum : ℕ
bad_checksum = 0x80

abbrev pub erase_failed : ℕ
erase_failed = 0x81

abbrev pub address_invalid : ℕ
address_invalid = 0x83

abbrev pub packet_sz_invalid : ℕ
packet_sz_invalid = 0x84

abbrev pub unknown_command : ℕ
unknown_command = 0x85

abbrev pub programming : ℕ
programming = 0x86

abbrev pub flash_not_erased : ℕ
flash_not_erased = 0x88

abbrev pub data_invalid : ℕ
data_invalid = 0x8b

abbrev pub flash_size_invalid : ℕ
flash_size_invalid = 0xa4
