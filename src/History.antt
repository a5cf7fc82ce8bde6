-- ===== src/History.antt =====
-- The history of command lines, src/diag/command_hist.c.
pub mod Recall
pub mod Order
use gen_blob.Base.{
  ℕ, zero, suc, ◌+◌, ◌-◌, ◌%◌, Bool, true, false, not, List, [], ◌∷◌, Option, none, some, ltb, ◌==◌,
  if◌then◌else◌, ℤ, pos, neg, get_elem?, store, replicate, ◌>>=◌,
}
use gen_blob.Text.{strlen, strlcpy}

abbrev pub max_hist : ℕ
max_hist = 32

abbrev pub max_commandline_length : ℕ
max_commandline_length = 128

abbrev pub einval : ℕ
einval = 1

-- cmdhist_entries, cmdhist_read, cmdhist_write and cmdhistory.
pub record History : Type 0 where
  pub entries : ℕ
  pub read : ℕ
  pub write : ℕ
  pub slots : List (List ℕ)

-- `i = MAX_HIST - 1; while (i--) cmdhistory[i][0] = 0`: the last slot is left out.
clear_slots : ℕ → List (List ℕ) → Option (List (List ℕ))
clear_slots zero slots = some slots
clear_slots (suc i) slots = do
  line ← get_elem? slots i
  line' ← store line 0 0
  slots' ← store slots i line'
  clear_slots i slots'

unfoldable pub cmdhist_init : History → Option History
unfolding clear_slots
cmdhist_init h = do
  slots ← clear_slots (max_hist - 1) h.slots
  some (record { entries = 0; read = 0; write = 0; slots = slots })

push_line : List ℕ → History → Option (ℤ × History)
unfolding strlcpy
push_line cmd h = do
  line ← get_elem? h.slots h.write
  line' ← strlcpy line cmd max_commandline_length
  slots ← store h.slots h.write line'
  some (
    pos 0,
    record {
      entries = if ltb h.entries max_hist then h.entries + 1 else h.entries;
      read = h.read;
      write = (h.write + 1) % max_hist;
      slots = slots;
    },
  )

-- `none` stands for NULL.
unfoldable pub cmdhist_push : Option (List ℕ) → History → Option (ℤ × History)
unfolding push_line strlen
cmdhist_push none h = some (neg einval, h)
cmdhist_push (some cmd) h = do
  n ← strlen cmd
  if ltb max_commandline_length n
      then some (neg einval, h)
      else if n == 0
      then some (pos 0, h)
      else push_line cmd h

unfoldable pub cmdhist_reset : History → ℤ × History
cmdhist_reset h = (pos 0, record h { read = h.write })

-- The answer of cmdhist_next and cmdhist_prev: the code, and the line that `*cmd` points to where
-- it was set.
abbrev pub Answer : Type 0
Answer = (ℤ × Option (List ℕ)) × History

abbrev invalid : History → Option Answer
invalid h = some ((neg einval, none), h)

-- `*cmd = cmdhistory[ptr]; cmdhist_read = ptr`, where the line is not empty.
show_line : ℕ → History → Option Answer
show_line ptr h = do
  line ← get_elem? h.slots ptr
  c ← get_elem? line 0
  if c == 0 then invalid h else some ((pos 0, some line), record h { read = ptr })

-- The argument tells whether `cmd` is not NULL.
unfoldable pub cmdhist_next : Bool → History → Option Answer
unfolding show_line
cmdhist_next cmd h =
    if h.entries == 0
    then invalid h
    else if not cmd
    then invalid h
    else if h.read == 0
    then (if not (h.entries == max_hist) then invalid h else show_line (max_hist - 1) h)
    else show_line (h.read - 1) h

unfoldable pub cmdhist_prev : Bool → History → Option Answer
unfolding show_line
cmdhist_prev cmd h =
    let ptr = (h.read + 1) % max_hist in
    if not cmd
    then invalid h
    else if h.entries == 0
    then invalid h
    else if ptr == h.write
    then invalid h
    else show_line ptr h
