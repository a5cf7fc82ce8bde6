-- ===== src/Loader/Dispatch.antt =====
-- map_command and handle_command of src/blob/bl_parser.c, with the command table.
pub mod Table
use gen_blob.Base.{ℕ, Bool, List, [], ◌∷◌, Option, some, if◌then◌else◌, ◌>>=◌}
use gen_blob.Text.{string_equal}
use gen_blob.Loader.Device.{Device, FlashPort}
use gen_blob.Loader.Err
use gen_blob.Loader.Handlers.{
  error, handle_command_addr, handle_command_bin, handle_command_rbin, handle_command_flash,
  handle_command_jump, handle_command_pwr_down,
}
use gen_blob.Loader.Queries.{
  handle_command_rqrc, handle_command_rqhw, handle_command_rqvn, handle_command_rqcs,
}

-- BLOADER_COMMANDS
pub data Command : Type 0 where
  erase addr bin baud power_down rqcs rqhw rqrc rqsn rqvn jump : Command
  wupid rupid rbrk upgrade restart rbin flash unknown : Command

abbrev pub CommandTbl : Type 0
CommandTbl = List (List ℕ × Command)

abbrev pub command_tbl : CommandTbl
command_tbl =
    (b'E' ∷ b'R' ∷ b'A' ∷ b'S' ∷ b'E' ∷ 0 ∷ [], erase)
    ∷ (b'A' ∷ b'D' ∷ b'D' ∷ b'R' ∷ 0 ∷ [], addr)
    ∷ (b'B' ∷ b'I' ∷ b'N' ∷ 0 ∷ [], bin)
    ∷ (b'B' ∷ b'A' ∷ b'U' ∷ b'D' ∷ 0 ∷ [], baud)
    ∷ (b'P' ∷ b'O' ∷ b'W' ∷ b'E' ∷ b'R' ∷ b'_' ∷ b'D' ∷ b'O' ∷ b'W' ∷ b'N' ∷ 0 ∷ [], power_down)
    ∷ (b'R' ∷ b'Q' ∷ b'C' ∷ b'S' ∷ 0 ∷ [], rqcs)
    ∷ (b'R' ∷ b'Q' ∷ b'H' ∷ b'W' ∷ 0 ∷ [], rqhw)
    ∷ (b'R' ∷ b'Q' ∷ b'R' ∷ b'C' ∷ 0 ∷ [], rqrc)
    ∷ (b'R' ∷ b'Q' ∷ b'S' ∷ b'N' ∷ 0 ∷ [], rqsn)
    ∷ (b'R' ∷ b'Q' ∷ b'V' ∷ b'N' ∷ 0 ∷ [], rqvn)
    ∷ (b'J' ∷ b'U' ∷ b'M' ∷ b'P' ∷ 0 ∷ [], jump)
    ∷ (b'W' ∷ b'U' ∷ b'P' ∷ b'I' ∷ b'D' ∷ 0 ∷ [], wupid)
    ∷ (b'R' ∷ b'U' ∷ b'P' ∷ b'I' ∷ b'D' ∷ 0 ∷ [], rupid)
    ∷ (b'U' ∷ b'P' ∷ b'G' ∷ b'R' ∷ b'A' ∷ b'D' ∷ b'E' ∷ 0 ∷ [], upgrade)
    ∷ (b'R' ∷ b'E' ∷ b'S' ∷ b'T' ∷ b'A' ∷ b'R' ∷ b'T' ∷ 0 ∷ [], restart)
    ∷ (b'R' ∷ b'B' ∷ b'R' ∷ b'K' ∷ 0 ∷ [], rbrk)
    ∷ (b'R' ∷ b'B' ∷ b'I' ∷ b'N' ∷ 0 ∷ [], rbin)
    ∷ (b'F' ∷ b'L' ∷ b'A' ∷ b'S' ∷ b'H' ∷ 0 ∷ [], flash)
    ∷ []

unfoldable pub map_command : CommandTbl → List ℕ → Option Command
map_command [] command_ptr = some unknown
map_command ((cmd, cmd_id) ∷ table) command_ptr = do
  same ← string_equal cmd command_ptr
  if same then some cmd_id else map_command table command_ptr

module _ {Flash : Type 0} (port : FlashPort Flash) where
  run_command : Command → Bool → Device Flash → Option (Device Flash)
  run_command addr has_data d = handle_command_addr has_data d
  run_command bin has_data d = handle_command_bin has_data d
  run_command power_down has_data d = handle_command_pwr_down has_data d
  run_command rqcs has_data d = handle_command_rqcs has_data d
  run_command rqhw has_data d = handle_command_rqhw has_data d
  run_command rqrc has_data d = handle_command_rqrc has_data d
  run_command rqvn has_data d = handle_command_rqvn has_data d
  run_command jump has_data d = handle_command_jump has_data d
  run_command rbin has_data d = handle_command_rbin has_data d
  run_command flash has_data d = handle_command_flash port has_data d
  run_command _ has_data d = error Err.unknown_command d

  unfoldable pub handle_command : Bool → Device Flash → Option (Device Flash)
  unfolding run_command map_command string_equal
  handle_command has_data d = do c ← map_command command_tbl d.recv_cmd; run_command c has_data d
