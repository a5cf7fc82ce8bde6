-- ===== src/Command/Input.antt =====
-- GetCommand of src/lib/command.c: a line from the serial port, with backspace. What is echoed is left
-- out.
pub mod Edit
use gen_blob.Base.{
  ℕ, suc, ◌-◌, Bool, true, false, ◌||◌, List, [], ◌∷◌, Option, none, some, leb, ltb, ◌==◌,
  if◌then◌else◌, ℤ, pos, store, ◌>>=◌,
}

-- What the wait for the next character ends with: serial_read gives a character, or a negative
-- number, or the time is over.
pub data Input : Type 0 where
  key : ℕ → Input
  read_error : ℤ → Input
  timed_out : Input

unfoldable pub end_line : List ℕ → ℕ → ℤ → Option (List ℕ × ℤ)
end_line command i result = do command' ← store command i 0; some (command', result)

-- The loop, with its two counters. Without a further input it waits forever.
unfoldable pub read_line : List Input → ℕ → List ℕ → ℕ → ℕ → Option (List ℕ × ℤ)
unfolding end_line
read_line [] max_read command i num_read =
    if leb max_read num_read then some (command, pos num_read) else none
read_line (timed_out ∷ rest) max_read command i num_read =
    if leb max_read num_read
    then some (command, pos num_read)
    else end_line command i (pos num_read)
read_line (read_error c ∷ rest) max_read command i num_read =
    if leb max_read num_read then some (command, pos num_read) else end_line command i c
read_line (key c ∷ rest) max_read command i num_read =
    let back = c == 8 in
    let i' = if back then (if ltb 0 i then i - 1 else i) else suc i in
    let num_read' = if back then (if ltb 0 i then num_read - 1 else num_read) else suc num_read in
    if leb max_read num_read
    then some (command, pos num_read)
    else if c == 13 || c == 10
    then end_line command i (pos num_read)
    else (do
      command' ← if back then some command else store command i c
      read_line rest max_read command' i' num_read')

unfoldable pub get_command : List Input → List ℕ → ℕ → Option (List ℕ × ℤ)
unfolding read_line
get_command inputs command len = read_line inputs (len - 1) command 0 0
