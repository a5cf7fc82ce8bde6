-- ===== src/Menu/Entries.antt =====
-- parse_conf_file of src/blob/menu.c: the commands of the lines, and the entries that they make.
pub mod Word
use gen_blob.Base.{
  ℕ, zero, suc, ◌+◌, ◌-◌, ◌*◌, ◌^◌, Bool, true, false, not, ◌||◌, ◌&&◌, List, [], ◌∷◌, ◌++◌, Option,
  none, some, leb, ltb, ◌==◌, if◌then◌else◌, ℤ, pos, negsuc, store, drop, ◌>>=◌,
}
use gen_blob.Number.{is_zero}
use gen_blob.Text.{strcmp, strlen}
use gen_blob.Menu.{max_word_nr, max_file_size, grub_malloc, File, grub_isspace, at_end, get_line}

-- The copy of get_cmd_word into the array behind `word`, with `n` characters so far.
unfoldable pub word_loop : List ℕ → List ℕ → ℕ → Option (List ℕ)
word_loop [] word n = none
word_loop (c ∷ cmdline) word n =
    let more = (do
      word' ← store word n c
      let rest = word_loop cmdline word' (n + 1)
      if ltb (max_word_nr - 1) (n + 1) then store word' (n + 1) 0 else rest) in
    if grub_isspace c || c == 0 then store word n 0 else more

unfoldable pub get_cmd_word : List ℕ → List ℕ → Option (List ℕ)
get_cmd_word cmdline word = word_loop cmdline word 0

pub data CmdType : Type 0 where
  unknown title kernel param machid : CmdType

abbrev pub title_text : List ℕ
title_text = b't' ∷ b'i' ∷ b't' ∷ b'l' ∷ b'e' ∷ []

abbrev pub kernel_text : List ℕ
kernel_text = b'k' ∷ b'e' ∷ b'r' ∷ b'n' ∷ b'e' ∷ b'l' ∷ []

abbrev pub param_text : List ℕ
param_text = b'p' ∷ b'a' ∷ b'r' ∷ b'a' ∷ b'm' ∷ []

abbrev pub machid_text : List ℕ
machid_text = b'm' ∷ b'a' ∷ b'c' ∷ b'h' ∷ b'i' ∷ b'd' ∷ []

-- `cmd_set`
abbrev pub cmd_set : List (CmdType × List ℕ)
cmd_set =
    (title, title_text ++ 0 ∷ [])
    ∷ (kernel, kernel_text ++ 0 ∷ [])
    ∷ (param, param_text ++ 0 ∷ [])
    ∷ (machid, machid_text ++ 0 ∷ [])
    ∷ []

unfoldable pub find_type : List ℕ → List (CmdType × List ℕ) → Option CmdType
find_type cmd [] = some unknown
find_type cmd ((type, name) ∷ set) = do
  d ← strcmp cmd name
  let rest = find_type cmd set
  if is_zero d then some type else rest

unfoldable pub get_cmd_type : List ℕ → Option CmdType
get_cmd_type cmd = find_type cmd cmd_set

-- The loop over the space behind the command: the rest of the line, or `none` inside for NULL.
unfoldable pub skip_space : List ℕ → Option (Option (List ℕ))
skip_space [] = none
skip_space (c ∷ cmdline) =
    let rest = skip_space cmdline in
    if c == 0 then some none else if not (grub_isspace c) then some (some (c ∷ cmdline)) else rest

unfoldable pub get_menu_entry_param : List ℕ → List ℕ → Option (Option (List ℕ))
get_menu_entry_param cmdline cmd = do n ← strlen cmd; skip_space (drop n cmdline)

-- atoi: an int that overflows is not defined.
unfoldable pub atoi_loop : List ℕ → ℕ → Option ℕ
atoi_loop [] res = none
atoi_loop (c ∷ string) res =
    let res' = res * 10 + (c - b'0') in
    let rest = atoi_loop string res' in
    if leb b'0' c && leb c b'9' then (if ltb res' (2 ^ 31) then rest else none) else some res

unfoldable pub atoi : Option (List ℕ) → Option ℕ
atoi none = none
atoi (some string) = atoi_loop string 0

-- menu_entry_t; a pointer into a line is the rest of its block.
pub record Entry : Type 0 where
  pub id : ℕ
  pub title : Option (List ℕ)
  pub kernel : Option (List ℕ)
  pub param : Option (List ℕ)
  pub machid : ℕ

-- sizeof(menu_entry_t)
abbrev pub entry_size : ℕ
entry_size = 24

-- The variables of parse_conf_file, with the entries in the order of the linked list: `curr_entry`
-- is the last of them, NULL if there is none.
pub record Conf : Type 0 where
  pub file : File
  pub heap : ℕ
  pub cmd : List ℕ
  pub entries : List Entry
  pub num : ℕ
  pub default_machid : ℕ

-- `curr_entry->… = …`
unfoldable pub update_last : (Entry → Entry) → List Entry → List Entry
update_last f [] = []
update_last f (e ∷ []) = f e ∷ []
update_last f (e ∷ e' ∷ es) = e ∷ update_last f (e' ∷ es)

abbrev pub is_empty : List Entry → Bool
is_empty [] = true
is_empty (e ∷ es) = false

-- The case of a command: the new state, and whether it goes on; `false` is `goto err`.
unfoldable pub on_title : List ℕ → Conf → Option (Bool × Conf)
on_title cmdline c =
    let (given, heap) = grub_malloc entry_size c.heap in
    let entry : Entry = record {
      id = c.num;
      title = none;
      kernel = none;
      param = none;
      machid = 0;
    } in
    let made = record c { heap = heap; entries = c.entries ++ entry ∷ []; num = c.num + 1 } in
    let titled : Option (Bool × Conf) = (do
      p ← get_menu_entry_param cmdline c.cmd
      elim p [
        | none ↦ some (false, made)
        | some text ↦ some (
          true,
          record made { entries = update_last (λ e. record e { title = some text }) made.entries },
        )
      ]) in
    if given then titled else some (false, record c { heap = heap })

unfoldable pub on_kernel : List ℕ → Conf → Option (Bool × Conf)
on_kernel cmdline c =
    let set = (do
      p ← get_menu_entry_param cmdline c.cmd
      some (true, record c { entries = update_last (λ e. record e { kernel = p }) c.entries })) in
    if is_empty c.entries then some (false, c) else set

unfoldable pub on_param : List ℕ → Conf → Option (Bool × Conf)
on_param cmdline c =
    let set = (do
      p ← get_menu_entry_param cmdline c.cmd
      some (true, record c { entries = update_last (λ e. record e { param = p }) c.entries })) in
    if is_empty c.entries then some (false, c) else set

unfoldable pub on_machid : List ℕ → Conf → Option (Bool × Conf)
on_machid cmdline c = do
  p ← get_menu_entry_param cmdline c.cmd
  i ← atoi p
  some (
    true,
    if is_empty c.entries
        then record c { default_machid = i }
        else record c { entries = update_last (λ e. record e { machid = i }) c.entries },
  )

unfoldable pub on_command : CmdType → List ℕ → Conf → Option (Bool × Conf)
on_command title cmdline c = on_title cmdline c
on_command kernel cmdline c = on_kernel cmdline c
on_command param cmdline c = on_param cmdline c
on_command machid cmdline c = on_machid cmdline c
on_command unknown cmdline c = some (true, c)

-- A line of the file.
unfoldable pub on_line : List ℕ → Conf → Option (Bool × Conf)
on_line cmdline c = do
  cmd ← get_cmd_word cmdline c.cmd
  type ← get_cmd_type cmd
  on_command type cmdline (record c { cmd = cmd })

-- The loop over the lines, on fuel, with the returned code.
unfoldable pub conf_loop : ℕ → Conf → Option (ℤ × Conf)
conf_loop zero c = none
conf_loop (suc fuel) c = do
  (line, file, heap) ← get_line c.file c.heap
  let c' = record c { file = file; heap = heap }
  elim line [
    | none ↦ some (pos 0, c')
    | some cmdline ↦ (do
      (goes_on, c'') ← on_line cmdline c'
      elim goes_on [ true ↦ conf_loop fuel c'' | false ↦ some (negsuc 0, c'') ])
  ]

-- menu_t, but for the cursor
pub record Menu : Type 0 where
  pub num : ℕ
  pub default_machid : ℕ
  pub entries : List Entry

-- The code and the menu, or the code 1 with a menu that was not written. `read` is the size that
-- file_fat_read returns, with the buffer of 2048 bytes behind it; `cmd` what the array held.
unfoldable pub parse_conf_file : ℕ → ℤ × List ℕ → List ℕ → ℕ → Option (ℤ × Option Menu)
parse_conf_file fuel (size, buffer) cmd heap =
    let (given, heap') = grub_malloc max_file_size heap in
    let parsed = (do
      (code, c) ← conf_loop fuel (record {
        file = record { content = buffer; size = size };
        heap = heap';
        cmd = cmd;
        entries = [];
        num = 0;
        default_machid = 0;
      })
      some (
        code,
        some (record {
          num = if is_zero code then c.num else 0;
          default_machid = c.default_machid;
          entries = c.entries;
        }),
      )) in
    if not given then some (pos 1, none) else if at_end size then some (pos 1, none) else parsed
