-- ===== src/Boot.antt =====
-- enter_simple_pass_through_mode of src/blob/boot_modes.c: what is started, from the keys that are
-- held, the flags in memory, the card and the configuration file. The hardware that it switches is
-- left out; boot_linux of src/blob/linux.c and the two loops do not come back.
pub mod FromMenu
use gen_blob.Base.{
  ℕ, zero, suc, Bool, true, false, List, [], ◌∷◌, Option, none, some, ltb, if◌then◌else◌, ℤ, pos,
  negsuc, is_neg, ◌>>=◌,
}
use gen_blob.Menu.Entries.{Entry, Menu, parse_conf_file}
use gen_blob.Menu.Select.{boot_menu}

-- What the code reads: check_enter_dumpkeys, check_enter_usb and check_enter_menu with the keys of
-- the moment (the last is called twice), the flags of the two kernels in flash, mmc_init, what
-- file_fat_read gives of the configuration file, the keys in the menu, and the size that
-- file_fat_read returns for a kernel.
pub record Machine : Type 0 where
  pub enter_dumpkeys : Bool
  pub enter_usb : Bool
  pub enter_menu : Bool
  pub gen1_kernel : Bool
  pub gen2_kernel : Bool
  pub card : Bool
  pub config_file : ℤ × List ℕ
  pub enter_menu_later : Bool
  pub keys : List ℕ
  pub kernel_size : Option (List ℕ) → ℤ

-- What is started, or the message that is shown. A string is its array; a kernel that the entry does
-- not name is NULL. boot_linux is called behind the kernel, in memory from its file, with the
-- parameters and the machine id.
pub data Started : Type 0 where
  dump_keys usb_loop gen1_boot gen2_boot : Started
  no_card bad_config no_entry : Started
  boot_linux : Option (List ℕ) → List ℕ → ℕ → Started
  cannot_load : Option (List ℕ) → Started

-- "/boot/default"
abbrev pub default_kernel : List ℕ
default_kernel =
    b'/' ∷ b'b' ∷ b'o' ∷ b'o' ∷ b't' ∷ b'/' ∷ b'd' ∷ b'e' ∷ b'f' ∷ b'a' ∷ b'u' ∷ b'l' ∷ b't' ∷ 0
    ∷ []

-- The empty string.
abbrev pub no_cmdline : List ℕ
no_cmdline = 0 ∷ []

-- `if (… > 0) machid = …`
abbrev pub pick_machid : ℕ → ℕ → ℕ
pick_machid new old = if ltb 0 new then new else old

-- `size > 0`
abbrev pub is_positive : ℤ → Bool
is_positive (pos n) = ltb 0 n
is_positive (negsuc n) = false

-- The kernel is read from the card, and booted if that gave something.
unfoldable pub load_kernel : Machine → Option (List ℕ) → List ℕ → ℕ → Started
load_kernel machine kernel cmdline machid =
    if is_positive (machine.kernel_size kernel)
    then boot_linux kernel cmdline machid
    else cannot_load kernel

-- The chosen entry, if the menu returned 0 with one.
unfoldable pub start_entry : Machine → ℤ × ℕ × Option Entry → ℕ → Started
start_entry machine (code, curr, none) machid = no_entry
start_entry machine (code, curr, some entry) machid =
    let cmdline : List ℕ = elim entry.param [ none ↦ no_cmdline | some p ↦ p ] in
    if is_neg code
    then no_entry
    else load_kernel machine entry.kernel cmdline (pick_machid entry.machid machid)

-- Behind parse_conf_file. A menu that was not written is read all the same, which is not defined.
unfoldable pub start_menu : Machine → ℤ × Option Menu → Option Started
start_menu machine (code, none) = if is_neg code then some bad_config else none
start_menu machine (code, some menu) =
    let machid = pick_machid menu.default_machid 0 in
    let chosen = (do
      answer ← boot_menu menu.num menu.entries machine.keys none
      some (start_entry machine answer machid)) in
    if is_neg code
    then some bad_config
    else if machine.enter_menu_later
    then chosen
    else some (load_kernel machine (some default_kernel) no_cmdline machid)

unfoldable pub start_card : ℕ → List ℕ → Machine → Option Started
start_card fuel cmd machine =
    let parsed = (do
      menu ← parse_conf_file fuel machine.config_file cmd 0
      start_menu machine menu) in
    if machine.card then parsed else some no_card

-- `fuel` is that of parse_conf_file, and `cmd` what its array of the command held.
unfoldable pub pass_through_mode : ℕ → List ℕ → Machine → Option Started
pass_through_mode fuel cmd machine =
    if machine.enter_dumpkeys
    then some dump_keys
    else if machine.enter_usb
    then some usb_loop
    else if machine.enter_menu
    then start_card fuel cmd machine
    else if machine.gen1_kernel
    then some gen1_boot
    else if machine.gen2_kernel
    then some gen2_boot
    else start_card fuel cmd machine
