-- ===== src/Menu/Select.antt =====
-- The choice from the menu: show_menu and boot_menu of src/blob/boot_modes.c. The keys that
-- read_key gives are a list; what is drawn is left out.
pub mod Cursor
use gen_blob.Base.{
  ℕ, zero, suc, ◌+◌, ◌-◌, Bool, true, false, ◌||◌, List, [], ◌∷◌, Option, none, some, ◌==◌,
  if◌then◌else◌, ℤ, pos, negsuc, ◌>>=◌,
}
use gen_blob.Menu.Entries.{Entry}

-- The loop of show_menu over the entries, which sets `go_menu_entry`.
unfoldable pub show_loop : ℕ → ℕ → List Entry → Option Entry → Option Entry
show_loop zero curr entries go = go
show_loop (suc n) curr [] go = go
show_loop (suc n) curr (e ∷ entries) go =
    show_loop n curr entries (if curr == e.id then some e else go)

unfoldable pub is_enter : ℕ → Bool
is_enter key = key == 0x14 || key == 0x21 || key == 0x23

unfoldable pub is_up : ℕ → Bool
is_up key = key == 0x04 || key == 0x32 || key == 0x00 || key == 0x31

unfoldable pub is_down : ℕ → Bool
is_down key = key == 0x44 || key == 0x11 || key == 0x10

-- `curr_entry` behind a key that is not enter.
unfoldable pub move : ℕ → ℕ → ℕ → ℕ
move num key curr =
    if is_up key
    then (if curr == 0 then num - 1 else curr - 1)
    else if is_down key
    then (if curr + 1 == num then 0 else curr + 1)
    else curr

-- The loop over the keys; without a further key it waits.
unfoldable pub key_loop : ℕ → List Entry → List ℕ → ℕ → Option Entry → Option (ℕ × Option Entry)
key_loop num entries [] curr go = none
key_loop num entries (key ∷ keys) curr go =
    let curr' = move num key curr in
    let go' = if is_up key || is_down key then show_loop num curr' entries go else go in
    let rest = key_loop num entries keys curr' go' in if is_enter key then some (curr, go) else rest

-- The code, `curr_entry` and `go_menu_entry`.
unfoldable pub boot_menu : ℕ → List Entry → List ℕ → Option Entry → Option (ℤ × ℕ × Option Entry)
boot_menu num entries keys go =
    let chosen = (do
      (curr, go') ← key_loop num entries keys 0 (show_loop num 0 entries go)
      some (pos 0, curr, go')) in
    if num == 0 then some (negsuc 0, 0, go) else chosen
