-- ===== src/Loader/Queries.antt =====
-- The commands of src/blob/bl_cmds_handler.c that report: RQRC, RQHW, RQVN and RQCS. They read
-- the boot loader's header (TFLASH_HEADER, at address 0) and code group 0 (TCODE_GROUP_0) in memory
-- by the offsets of include/blob/bl_flash_header.h.
pub mod Bounds
use gen_blob.Base.{
  ℕ, zero, suc, ◌+◌, ◌-◌, ◌*◌, ◌^◌, Bool, true, false, not, ◌&&◌, ◌||◌, List, [], ◌∷◌, ◌++◌, Option,
  none, some, ltb, leb, ◌==◌, if◌then◌else◌, u8, u32, length, take, drop, replicate, ◌>>=◌, sub_u32,
}
use gen_blob.Text.{strlen}
use gen_blob.Hex.{hexasc_to_u32, u8_to_hexasc, u16_to_hexasc}
use gen_blob.Loader.Device.{Device}
use gen_blob.Loader.Err
use gen_blob.Loader.Handlers.{error, send}
use gen_blob.Loader.Memory.{Memory, byte_at, word_at, sum_memory}

abbrev pub undefined_address : ℕ
undefined_address = 0xffffffff

abbrev pub barker_value : ℕ
barker_value = 177

-- FLASH_HEADER's fields: barker, hardware descriptor, checksum start and end, code group 0.
abbrev pub cg0_of : Memory → ℕ
cg0_of m = word_at m 36

unfoldable pub flash_bootloader_barker_is_valid : Memory → Bool
flash_bootloader_barker_is_valid m = word_at m 4 == barker_value

unfoldable pub main_code_barker_is_valid : Memory → Bool
main_code_barker_is_valid m = word_at m (cg0_of m + 4) == barker_value

unfoldable pub just_flashed_main_code_barker_is_valid : Memory → Bool
just_flashed_main_code_barker_is_valid m =
    word_at m (cg0_of m + 4) == undefined_address
      && not (word_at m (cg0_of m + 28) == undefined_address)
    || word_at m (cg0_of m + 4) == barker_value

-- `add_bin_ascii_response`: the characters without the NUL. `none` stands for NULL.
unfoldable pub add_bin_ascii_response : Memory → Option ℕ → ℕ → List ℕ
add_bin_ascii_response m source_ptr zero = []
add_bin_ascii_response m none (suc numb_bytes) =
    take 2 (u8_to_hexasc 0xff) ++ add_bin_ascii_response m none numb_bytes
add_bin_ascii_response m (some a) (suc numb_bytes) =
    take 2 (u8_to_hexasc (byte_at m a)) ++ add_bin_ascii_response m (some (a + 1)) numb_bytes

unfoldable pub get_running_boot_info : Memory → List ℕ
unfolding add_bin_ascii_response flash_bootloader_barker_is_valid
get_running_boot_info m =
    add_bin_ascii_response m (if flash_bootloader_barker_is_valid m then some 8 else none) 8

-- The code groups of RQVN: `groups` of them are left in the header's table, `nr` in the flash.
code_group_fields : Memory → ℕ → ℕ → ℕ → List ℕ
unfolding add_bin_ascii_response
code_group_fields m zero code_group nr = []
code_group_fields m (suc groups) code_group nr =
    let start = word_at m (cg0_of m + 28 + 8 * code_group) in
    let exists = not (start == undefined_address) in
    let field = add_bin_ascii_response m (if exists then some (start + 8) else none) 8 in
    let rest = code_group_fields m groups (code_group + 1) (if exists then nr - 1 else nr) in
    if nr == 0 then [] else b',' ∷ (field ++ rest)

-- What RQVN writes into `response[MAX_RESPONSE_SIZE]`.
pub version_response : Memory → List ℕ
unfolding get_running_boot_info main_code_barker_is_valid code_group_fields
version_response m =
    let valid = flash_bootloader_barker_is_valid m in
    let main = valid && main_code_barker_is_valid m in
    let number = byte_at m (cg0_of m + 24) in
    let nr = if main then (if ltb 22 number then 22 else number) else 0 in
    get_running_boot_info m
    ++ (b',' ∷ add_bin_ascii_response m (if valid then some 8 else none) 8)
    ++ (b',' ∷ add_bin_ascii_response m (if main then some (cg0_of m + 16) else none) 8)
    ++ code_group_fields m 22 0 nr

-- The result of `util_calc_csum`: the sum, the number of code groups and the validity left in the
-- arguments passed by reference.
pub record Csum : Type 0 where
  pub sum : ℕ
  pub groups : ℕ
  pub valid : Bool

-- The loop over `[start, end]`.
sum_section : Memory → ℕ → ℕ → ℕ → Bool → Csum
sum_section m start end groups valid = record {
  sum = sum_memory m 0 start (u32 (end + 2 ^ 32 - start + 1));
  groups = groups;
  valid = valid;
}

sum_code_group : Memory → ℕ → ℕ → Bool → Csum
unfolding sum_section
sum_code_group m section groups valid =
    let start_at = cg0_of m + 4 * (7 + 2 * (section - 1)) in
    let start = word_at m start_at in
    let end = word_at m (start_at + 4) in
    if (start == undefined_address && end == undefined_address) || start == end
    then record { sum = 0; groups = groups; valid = false }
    else sum_section m start end (u8 (groups + 255)) valid

unfoldable pub util_calc_csum : Memory → ℕ → ℕ → Bool → Csum
unfolding sum_section sum_code_group just_flashed_main_code_barker_is_valid
util_calc_csum m section groups valid =
    if section == 0
    then (if word_at m 4 == undefined_address && not (word_at m 28 == undefined_address)
          || word_at m 4 == barker_value
        then sum_section m (word_at m 28) (word_at m 32) groups valid
        else record { sum = 0; groups = groups; valid = valid })
    else if section == 1
    then (if just_flashed_main_code_barker_is_valid m
        then sum_code_group m section (byte_at m (cg0_of m + 24)) valid
        else record { sum = 0; groups = 0; valid = false })
    else sum_code_group m section groups valid

-- The first loop of RQCS, from section `i` on, with `left` sections to go: the sums that count.
pub collect_csums : Memory → ℕ → ℕ → ℕ → List Csum
unfolding util_calc_csum
collect_csums m zero i groups = []
collect_csums m (suc left) i groups =
    let c = util_calc_csum m i groups true in
    let rest = collect_csums m left (i + 1) c.groups in
    if i == 0
    then (if c.sum == 0 then [] else c ∷ rest)
    else if c.groups == 0
    then c ∷ []
    else c ∷ rest

-- The second loop: all but the last sum may be blank.
pub csum_fields : ℕ → List Csum → List ℕ
csum_fields i [] = []
csum_fields i (c ∷ []) = take 4 (u16_to_hexasc c.sum)
csum_fields i (c ∷ c' ∷ cs) =
    (if leb 1 i && not c.valid then replicate 4 0x20 else take 4 (u16_to_hexasc c.sum))
    ++ (b',' ∷ csum_fields (i + 1) (c' ∷ cs))

module _ {Flash : Type 0} where
  -- A response string is sent with its length.
  pub send_string : List ℕ → List ℕ → Device Flash → Option (Device Flash)
  unfolding strlen
  send_string keyword response d = do n ← strlen response; send keyword response n d

  -- The loop ends unless the last address is the greatest one, which no pointer exceeds.
  checksum_ram : ℕ → ℕ → Device Flash → Option (Device Flash)
  unfolding send_string u16_to_hexasc
  checksum_ram start end d =
      let rounds = if leb start end then end - start + 1 else 0 in
      let response = u16_to_hexasc (sum_memory d.mem 0 start rounds) in
      if end == 0xffffffff
      then none
      else send_string (b'R' ∷ b'S' ∷ b'R' ∷ b'C' ∷ 0 ∷ []) response d

  unfoldable pub handle_command_rqrc : Bool → Device Flash → Option (Device Flash)
  unfolding checksum_ram
  handle_command_rqrc false d = error Err.data_invalid d
  handle_command_rqrc true d = do
    data_start ← hexasc_to_u32 d.recv_data 8
    data_end ← hexasc_to_u32 (drop 9 d.recv_data) 8
    if ltb (sub_u32 data_end data_start) 1024
        then error Err.data_invalid d
        else checksum_ram data_start data_end d

  unfoldable pub handle_command_rqhw : Bool → Device Flash → Option (Device Flash)
  unfolding send_string add_bin_ascii_response
  handle_command_rqhw has_data d =
      let source = if flash_bootloader_barker_is_valid d.mem then some 16 else none in
      send_string (b'R' ∷ b'S' ∷ b'H' ∷ b'W' ∷ 0 ∷ [])
        (add_bin_ascii_response d.mem source 8 ++ 0 ∷ []) d

  -- The response that was put together is not the one that is sent.
  unfoldable pub handle_command_rqvn : Bool → Device Flash → Option (Device Flash)
  unfolding version_response
  handle_command_rqvn has_data d =
      if ltb (length (version_response d.mem)) 435
      then send (b'R' ∷ b'S' ∷ b'V' ∷ b'N' ∷ 0 ∷ [])
          (b'g' ∷ b'e' ∷ b'n' ∷ b'-' ∷ b'b' ∷ b'l' ∷ b'o' ∷ b'b' ∷ 0 ∷ []) 8 d
      else none

  unfoldable pub handle_command_rqcs : Bool → Device Flash → Option (Device Flash)
  unfolding send_string collect_csums csum_fields
  handle_command_rqcs has_data d =
      let response = csum_fields 0 (collect_csums d.mem 22 0 0) in
      if ltb (length response) 115
      then send_string (b'R' ∷ b'S' ∷ b'C' ∷ b'S' ∷ 0 ∷ []) (response ++ 0 ∷ []) d
      else none
