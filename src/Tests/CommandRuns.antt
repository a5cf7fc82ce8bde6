-- ===== src/Tests/CommandRuns.antt =====
-- Runs of the command line.
use gen_blob.Base.{
  ℕ, ◌<◌, List, [], ◌∷◌, ◌++◌, some, ◌≡◌, refl, arith, length, replicate, map, take, pos, suc, inl,
}
use gen_blob.Loader.Receive.Message.{Lacks-IsString}
use gen_blob.Init.{InitItem, init_magic, init_subsystems}
use gen_blob.Init.Order.{at_level, Ascending, init_subsystems-Ascending}
use gen_blob.Command.Input.{key, get_command}
use gen_blob.Command.Input.Edit.{edited, get_command-edited}
use gen_blob.Command.{CommandEntry, command_magic, max_args, parse_command}
use gen_blob.Command.Words.{words}
use gen_blob.Command.Args.{Args}
use gen_blob.Command.Match.{Named, matching, answer, parse_command-answer}

abbrev entry : List ℕ → ℕ → CommandEntry
entry name callback = record {
  magic = command_magic;
  name = name ++ 0 ∷ [];
  help = 0 ∷ [];
  callback = callback;
}

abbrev flash_name : List ℕ
flash_name = b'f' ∷ b'l' ∷ b'a' ∷ b's' ∷ b'h' ∷ []

abbrev help_name : List ℕ
help_name = b'h' ∷ b'e' ∷ b'l' ∷ b'p' ∷ []

abbrev table : List CommandEntry
table = entry help_name 1 ∷ entry flash_name 2 ∷ []

table-Named : Named table (help_name ∷ flash_name ∷ [])
table-Named = (
  (refl, Lacks-IsString help_name [] (ground arith)),
  ((refl, Lacks-IsString flash_name [] (ground arith)), tt),
)

-- A prefix of a name, a tab, and an argument.
abbrev typed : List ℕ
typed = b'f' ∷ b'l' ∷ 9 ∷ b'x' ∷ []

typed-words : words typed ≡ (b'f' ∷ b'l' ∷ []) ∷ (b'x' ∷ []) ∷ []
unfolding words
typed-words = refl

parse_command-answer_example :
    (line : List ℕ) × (places : List ℕ) × (parse_command table (typed ++ 0 ∷ [])
      ≡ some (answer (matching (b'f' ∷ b'l' ∷ []) table (help_name ∷ flash_name ∷ [])) line places))
    × Args line places ((b'f' ∷ b'l' ∷ []) ∷ (b'x' ∷ []) ∷ [])
parse_command-answer_example =
    parse_command-answer table (help_name ∷ flash_name ∷ []) (b'f' ∷ b'l' ∷ []) ((b'x' ∷ []) ∷ [])
      table-Named (Lacks-IsString typed [] (ground arith)) typed-words (omega arith)

-- 33 words in 65 characters.
abbrev many : List ℕ
many =
    b'a' ∷ b' ' ∷ b'a' ∷ b' ' ∷ b'a' ∷ b' ' ∷ b'a' ∷ b' ' ∷ b'a' ∷ b' ' ∷ b'a' ∷ b' ' ∷ b'a' ∷ b' '
    ∷ b'a' ∷ b' ' ∷ b'a' ∷ b' ' ∷ b'a' ∷ b' ' ∷ b'a' ∷ b' ' ∷ b'a' ∷ b' ' ∷ b'a' ∷ b' ' ∷ b'a'
    ∷ b' ' ∷ b'a' ∷ b' ' ∷ b'a' ∷ b' ' ∷ b'a' ∷ b' ' ∷ b'a' ∷ b' ' ∷ b'a' ∷ b' ' ∷ b'a' ∷ b' '
    ∷ b'a' ∷ b' ' ∷ b'a' ∷ b' ' ∷ b'a' ∷ b' ' ∷ b'a' ∷ b' ' ∷ b'a' ∷ b' ' ∷ b'a' ∷ b' ' ∷ b'a'
    ∷ b' ' ∷ b'a' ∷ b' ' ∷ b'a' ∷ b' ' ∷ b'a' ∷ b' ' ∷ b'a' ∷ b' ' ∷ b'a' ∷ b' ' ∷ b'a' ∷ []

many-words : max_args < length (words many)
unfolding words
many-words = omega arith

abbrev item : ℕ → ℕ → InitItem
item callback level = record { magic = init_magic; callback = callback; level = level }

abbrev items : List InitItem
items = item 1 40 ∷ item 2 10 ∷ item 3 40 ∷ item 4 0 ∷ []

init_subsystems-Ascending_example :
    (at_level 40 (init_subsystems items) ≡ at_level 40 items) × Ascending 0 (init_subsystems items)
init_subsystems-Ascending_example =
    init_subsystems-Ascending 40 items (refl, (refl, (refl, (refl, tt)))) (omega arith)

-- "hx", a backspace, "i" and a carriage return.
abbrev keys : List ℕ
keys = b'h' ∷ b'x' ∷ 8 ∷ b'i' ∷ []

get_command-edited_example :
    (command' : List ℕ) × (get_command (map key keys ++ key 13 ∷ []) (replicate 8 7) 8
      ≡ some (command', pos (length (edited [] keys))))
    × (take (suc (length (edited [] keys))) command' ≡ edited [] keys ++ 0 ∷ [])
get_command-edited_example =
    get_command-edited keys (replicate 8 7) 8 13 (inl refl) (ground arith) (omega arith)
