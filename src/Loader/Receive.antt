-- ===== src/Loader/Receive.antt =====
-- parse_data of src/blob/bl_parser.c: the loader's protocol, fed with one USB transfer after the
-- other. What is left of a transfer, `pCurrentPtr` with `bytesRecv`, is a list.
pub mod Buffers
pub mod Stages
pub mod DataStages
pub mod Transfers
pub mod Message
pub mod Overflow
use gen_blob.Base.{
  ℕ, zero, suc, ◌+◌, ◌-◌, Bool, true, false, not, ◌||◌, List, [], ◌∷◌, Option, none, some, ltb, leb,
  ◌==◌, if◌then◌else◌, u16, ◌<<<◌, length, get_elem?, store, drop, ◌>>=◌,
}
use gen_blob.Text.{string_equal}
use gen_blob.Loader.Device.{Device, FlashPort, stx, etx, rs}
use gen_blob.Loader.Dispatch.{handle_command}
use gen_blob.Loader.Err
use gen_blob.Loader.Handlers.{error}

-- The parser's static variables; the flags are 0 or 1.
pub record Receiver : Type 0 where
  pub data_offset : ℕ
  pub cmd_offset : ℕ
  pub start_flag : Bool
  pub cmd_flag : Bool
  pub separator_clear : Bool
  pub bin_cmd_flag : Bool
  pub bin_bytes_to_read : ℕ

-- What reset_global makes of them.
abbrev pub reset_global : Receiver
reset_global = record {
  data_offset = 0;
  cmd_offset = 0;
  start_flag = false;
  cmd_flag = false;
  separator_clear = false;
  bin_cmd_flag = false;
  bin_bytes_to_read = 0;
}

abbrev pub bin_str : List ℕ
bin_str = b'B' ∷ b'I' ∷ b'N' ∷ 0 ∷ []

-- `*(pData++) = *(pCurrentPtr++)` for all that is left of the transfer.
unfoldable pub store_all : List ℕ → ℕ → List ℕ → Option (List ℕ)
store_all arr i [] = some arr
store_all arr i (b ∷ bs) = do arr' ← store arr i b; store_all arr' (i + 1) bs

-- The place of the first ETX among the first `count` bytes.
unfoldable pub scan_etx : List ℕ → ℕ → Option ℕ
scan_etx arr zero = none
scan_etx [] (suc count) = none
scan_etx (b ∷ arr) (suc count) =
    if b == etx then some 0 else (do k ← scan_etx arr count; some (suc k))

module _ {Flash : Type 0} (port : FlashPort Flash) where
  abbrev pub State : Type 0
  State = Receiver × Device Flash

  -- `handle_command(recvCmd, …); reset_global(); return`
  abbrev pub finish : Bool → Device Flash → Option State
  finish has_data d = do d' ← handle_command port has_data d; some (reset_global, d')

  -- A message whose data are not for BIN: up to the ETX at place `k`, if it is there yet.
  pub end_data : Option ℕ → State → Option State
  end_data none s = some s
  end_data (some k) (r, d) = do
    arr ← store d.recv_data k 0
    finish true (record d { recv_data = arr })

  -- "has read all of the data": the parser is not reset where ETX is missing.
  end_bin : State → Option State
  end_bin (r, d) =
      let last = r.bin_bytes_to_read - 1 in
      if leb r.bin_bytes_to_read r.data_offset
      then (do
        b ← get_elem? d.recv_data last
        if b == etx
            then (do arr ← store d.recv_data last 0; finish true (record d { recv_data = arr }))
            else (do d' ← error Err.packet_sz_invalid d; some (r, d')))
      else some (r, d)

  -- The size field, its check, and the four bytes that go with the data.
  size_bin : State → Option State
  unfolding end_bin
  size_bin (r, d) = do
    msb ← get_elem? d.recv_data 0
    lsb ← get_elem? d.recv_data 1
    let size = u16 (msb <<< 8 + lsb)
    if ltb size 8 || ltb 8192 size
        then (do d' ← error Err.packet_sz_invalid d; some (reset_global, d'))
        else end_bin (record r { bin_bytes_to_read = u16 (size + 4) }, d)

  -- Behind RS, in the transfer that has it.
  pub first_data : List ℕ → State → Option State
  unfolding end_data size_bin store_all scan_etx
  first_data bytes (r, d) = do
    arr ← store_all d.recv_data 0 bytes
    let r' = record r { separator_clear = true; data_offset = u16 (r.data_offset + length bytes) }
    let d' = record d { recv_data = arr }
    is_bin ← string_equal bin_str d.recv_cmd
    if not is_bin
        then end_data (scan_etx arr (length bytes)) (r', d')
        else if ltb (length bytes) 2
        then some (record r' { bin_cmd_flag = true }, d')
        else size_bin (record r' { bin_cmd_flag = true }, d')

  -- separator_clear is 0.
  pub separator : List ℕ → State → Option State
  unfolding first_data
  separator [] s = some s
  separator (c ∷ rest) (r, d) =
      if c == etx then finish false d else if c == rs then first_data rest (r, d) else some (r, d)

  later_bin : State → Option State
  unfolding size_bin
  later_bin (r, d) =
      if ltb r.data_offset 2
      then some (r, d)
      else if r.bin_bytes_to_read == 0
      then size_bin (r, d)
      else end_bin (r, d)

  -- separator_clear is 1: the transfer goes on with the data.
  pub later_data : List ℕ → State → Option State
  unfolding later_bin end_data store_all scan_etx
  later_data bytes (r, d) = do
    arr ← store_all d.recv_data r.data_offset bytes
    let r' = record r { data_offset = u16 (r.data_offset + length bytes) }
    let d' = record d { recv_data = arr }
    if not r.bin_cmd_flag
        then end_data
            (do k ← scan_etx (drop r.data_offset arr) (length bytes); some (r.data_offset + k))
            (r', d')
        else later_bin (r', d')

  pub after_command : List ℕ → State → Option State
  unfolding separator later_data
  after_command bytes (r, d) =
      if r.separator_clear then later_data bytes (r, d) else separator bytes (r, d)

  -- The loop that copies the command, `i` bytes of this transfer so far.
  pub copy_command : List ℕ → ℕ → State → Option State
  unfolding after_command
  copy_command [] i (r, d) = some (record r { cmd_offset = u16 (r.cmd_offset + i) }, d)
  copy_command (c ∷ rest) i (r, d) =
      if c == etx || c == rs
      then (do
        arr ← store d.recv_cmd (r.cmd_offset + i) 0
        after_command (c ∷ rest) (record r { cmd_flag = true }, record d { recv_cmd = arr }))
      else (do
        arr ← store d.recv_cmd (r.cmd_offset + i) c
        copy_command rest (i + 1) (r, record d { recv_cmd = arr }))

  pub command_field : List ℕ → State → Option State
  unfolding copy_command
  command_field [] (r, d) = if r.cmd_flag then after_command [] (r, d) else some (r, d)
  command_field (c ∷ rest) (r, d) =
      if r.cmd_flag then after_command (c ∷ rest) (r, d) else copy_command (c ∷ rest) 0 (r, d)

  -- All is thrown away up to an STX. (The loop looks at one byte behind the transfer before it
  -- gives up, and whatever that is, it returns.)
  pub find_stx : List ℕ → State → Option State
  unfolding command_field
  find_stx [] s = some s
  find_stx (c ∷ rest) (r, d) =
      if c == stx
      then command_field rest (record r { start_flag = true }, d)
      else find_stx rest (r, d)

  unfoldable pub parse_data : List ℕ → State → Option State
  unfolding find_stx
  parse_data [] s = some s
  parse_data (c ∷ rest) (r, d) =
      if r.start_flag then command_field (c ∷ rest) (r, d) else find_stx (c ∷ rest) (r, d)

  -- The transfers of a message, by rx_callback of src/blob/usb-mot1.c.
  unfoldable pub receive : List (List ℕ) → State → Option State
  receive [] s = some s
  receive (bytes ∷ transfers) s = do s' ← parse_data bytes s; receive transfers s'
