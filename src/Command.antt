-- ===== src/Command.antt =====
-- src/lib/command.c: the command line, cut into words, and the command that its first word names.
pub mod Words
pub mod Args
pub mod Match
pub mod Input
use gen_blob.Base.{
  ℕ, zero, suc, Bool, true, false, not, ◌&&◌, ◌||◌, List, [], ◌∷◌, Option, none, some, leb, ltb,
  ◌==◌, if◌then◌else◌, length, drop, get_elem?, ℤ, pos, neg, is_neg, equals_ℕ, ◌>>=◌,
}
use gen_blob.Text.{strlen, strncmp}

abbrev pub max_args : ℕ
max_args = 32

abbrev pub max_commandline_length : ℕ
max_commandline_length = 128

abbrev pub command_magic : ℕ
command_magic = 1131242528

-- "convert all tabs into single spaces"
unfoldable pub detab : List ℕ → Option (List ℕ)
detab [] = none
detab (c ∷ cs) =
    if c == 0 then some (c ∷ cs) else (do cs' ← detab cs; some ((if c == 9 then b' ' else c) ∷ cs'))

-- The loop that finds the words, at place `at` of the line, with `i` words so far, and whether it is
-- in a word (STATE_WORD): the line with a NUL behind each word, and the places that go to argv.
unfoldable pub find_words : List ℕ → ℕ → ℕ → Bool → Option (List ℕ × List ℕ)
find_words [] at i in_word = none
find_words (c ∷ cs) at i in_word =
    let start = not in_word && not (c == b' ') in
    let stop = in_word && (c == b' ') in
    let rest = find_words cs (suc at) (if start then suc i else i) (not (c == b' ')) in
    if c == 0 then some (c ∷ cs, []) else if start && leb max_args i then none else (do
      (line, places) ← rest
      some ((if stop then 0 else c) ∷ line, if start then at ∷ places else places))

-- The line afterwards, and argv as places in it; argc is their number.
unfoldable pub parse_args : List ℕ → Option (List ℕ × List ℕ)
unfolding find_words detab
parse_args cmdline = do
  n ← strlen cmdline
  if n == 0 then some (cmdline, []) else (do line ← detab cmdline; find_words line 0 0 false)

-- `commandlist_t`, the entries in their order; a command is told by its callback.
pub record CommandEntry : Type 0 where
  pub magic : ℕ
  pub name : List ℕ
  pub help : List ℕ
  pub callback : ℕ

-- What parse_command does: it returns a code, or calls a command with the words.
pub data Outcome : Type 0 where
  returns : ℤ → Outcome
  calls : CommandEntry → List ℕ → List ℕ → Outcome

-- EMAGIC, ECOMMAND and EAMBIGCMD
abbrev pub emagic : ℕ
emagic = 3

abbrev pub ecommand : ℕ
ecommand = 4

abbrev pub eambigcmd : ℕ
eambigcmd = 11

unfoldable pub count_matches : List CommandEntry → List ℕ → ℕ → ℕ → Option ℤ
count_matches [] cmdline len num_matches = some (pos num_matches)
count_matches (cmd ∷ commands) cmdline len num_matches =
    if not (cmd.magic == command_magic) then some (neg emagic) else (do
      r ← strncmp cmd.name cmdline len
      count_matches commands cmdline len (if equals_ℕ r 0 then suc num_matches else num_matches))

unfoldable pub get_num_command_matches : List CommandEntry → List ℕ → Option ℤ
get_num_command_matches commands cmdline = do
  len ← strlen cmdline
  count_matches commands cmdline len 0

-- The loop that calls the command.
unfoldable pub call_match : List CommandEntry → List ℕ → ℕ → List ℕ → List ℕ → Option Outcome
call_match [] arg0 len line places = some (returns (neg ecommand))
call_match (cmd ∷ commands) arg0 len line places =
    let rest = call_match commands arg0 len line places in
    if not (cmd.magic == command_magic) then some (returns (neg emagic)) else (do
      r ← strncmp cmd.name arg0 len
      if equals_ℕ r 0 then some (calls cmd line places) else rest)

unfoldable pub dispatch : List CommandEntry → List ℕ → List ℕ → Option Outcome
dispatch commands line [] = some (returns (pos 0))
dispatch commands line (p ∷ places) = do
  let arg0 = drop p line
  num_commands ← get_num_command_matches commands arg0
  if is_neg num_commands
      then some (returns num_commands)
      else if equals_ℕ num_commands 0
      then some (returns (neg ecommand))
      else if not (equals_ℕ num_commands 1)
      then some (returns (neg eambigcmd))
      else (do len ← strlen arg0; call_match commands arg0 len line (p ∷ places))

unfoldable pub parse_command : List CommandEntry → List ℕ → Option Outcome
parse_command commands cmdline = do
  (line, places) ← parse_args cmdline
  dispatch commands line places
