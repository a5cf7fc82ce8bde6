-- ===== src/Menu/Entries/Word.antt =====
-- get_cmd_word, get_cmd_type and get_menu_entry_param of src/blob/menu.c on a line with a command of
-- the set and a text behind one space.
use gen_blob.Base.{
  ℕ, suc, ◌+◌, ◌-◌, ◌*◌, ◌^◌, ◌≤◌, ◌<◌, ◌≡◌, ◌≢◌, true, false, ◌||◌, ◌&&◌, List, [], ◌∷◌, ◌++◌,
  some, refl, arith, leb, ltb, ◌==◌, ne→==, length, drop, store-append, append_assoc, append-nil,
  length-append, length-drop,
}
use gen_blob.Text.{strlen, strcmp}
use gen_blob.Menu.{grub_isspace}
use gen_blob.Menu.Entries.{
  word_loop, get_cmd_word, CmdType, title, kernel, param, machid, find_type, get_cmd_type,
  skip_space, get_menu_entry_param, title_text, kernel_text, param_text, machid_text, atoi_loop,
}

-- No character that ends a word.
abbrev pub IsWord : List ℕ → Type 0
IsWord [] = Unit
IsWord (c ∷ w) = ((grub_isspace c || c == 0) ≡ false) × IsWord w

word_loop-IsWord :
    (read w tail rest : List ℕ)
    → IsWord w
    → length read + length w < 10
    → length w < length tail
    → word_loop (w ++ b' ' ∷ rest) (read ++ tail) (length read)
      ≡ some ((read ++ w) ++ 0 ∷ drop (suc (length w)) tail)
unfolding word_loop grub_isspace
word_loop-IsWord read w [] rest word short fits = absurd (omega arith)
word_loop-IsWord read [] (x ∷ tail) rest word short fits =
    let empty : read ++ [] ≡ read = append-nil read in rw empty (store-append read x tail 0)
word_loop-IsWord read (c ∷ w) (x ∷ tail) rest (first, word) short fits =
    let grown : length read + 1 ≡ length (read ++ c ∷ []) =
      omega (arith, length-append read (c ∷ [])) in
    let joined : (read ++ c ∷ []) ++ tail ≡ read ++ c ∷ tail = append_assoc read (c ∷ []) tail in
    let whole : (read ++ c ∷ []) ++ w ≡ read ++ c ∷ w = append_assoc read (c ∷ []) w in
    let room : ltb 9 (length (read ++ c ∷ [])) ≡ false = ground (arith, grown) in
    rw (first, store-append read x tail c, grown, room, ← joined, ← whole)
      (word_loop-IsWord (read ++ c ∷ []) w tail rest word (omega arith) (omega arith))

-- A word of fewer than 10 characters before a space is copied into the array, with a NUL.
pub get_cmd_word-IsWord :
    (w cmd rest : List ℕ)
    → IsWord w
    → length w < 10
    → length cmd ≡ 10
    → get_cmd_word (w ++ b' ' ∷ rest) cmd ≡ some (w ++ 0 ∷ drop (suc (length w)) cmd)
unfolding get_cmd_word
get_cmd_word-IsWord w cmd rest word short long =
    word_loop-IsWord [] w cmd rest word (omega arith) (omega arith)

-- The array has its 10 bytes again.
pub length-get_cmd_word :
    (w cmd : List ℕ)
    → length w < 10
    → length cmd ≡ 10
    → length (w ++ 0 ∷ drop (suc (length w)) cmd) ≡ 10
length-get_cmd_word w cmd short long =
    omega (arith, length-append w (0 ∷ drop (suc (length w)) cmd), length-drop (suc (length w)) cmd)

-- The commands of the set.
unfoldable pub text_of : CmdType → List ℕ
text_of title = title_text
text_of kernel = kernel_text
text_of param = param_text
text_of machid = machid_text
text_of CmdType.unknown = []

abbrev pub IsCommand : CmdType → Type 0
IsCommand CmdType.unknown = ⊥
IsCommand _ = Unit

pub text_of-IsWord :
    (type : CmdType) → IsCommand type → IsWord (text_of type) × (length (text_of type) ≤ 6)
unfolding text_of grub_isspace
text_of-IsWord title h = ((refl, (refl, (refl, (refl, (refl, tt))))), omega arith)
text_of-IsWord kernel h = ((refl, (refl, (refl, (refl, (refl, (refl, tt)))))), omega arith)
text_of-IsWord param h = ((refl, (refl, (refl, (refl, (refl, tt))))), omega arith)
text_of-IsWord machid h = ((refl, (refl, (refl, (refl, (refl, (refl, tt)))))), omega arith)
text_of-IsWord CmdType.unknown h = absurd h

pub get_cmd_type-text_of :
    (type : CmdType) (rest : List ℕ)
    → IsCommand type
    → get_cmd_type (text_of type ++ 0 ∷ rest) ≡ some type
unfolding text_of get_cmd_type find_type strcmp
get_cmd_type-text_of title rest h = refl
get_cmd_type-text_of kernel rest h = refl
get_cmd_type-text_of param rest h = refl
get_cmd_type-text_of machid rest h = refl
get_cmd_type-text_of CmdType.unknown rest h = absurd h

skip_space_one :
    (c : ℕ) (t : List ℕ)
    → c ≢ 0
    → grub_isspace c ≡ false
    → skip_space (b' ' ∷ c ∷ t) ≡ some (some (c ∷ t))
unfolding skip_space grub_isspace
skip_space_one c t ne space = rw (ne→== c 0 ne, space) refl

-- The text behind the command and a space.
pub get_menu_entry_param-text_of :
    (type : CmdType) (c : ℕ) (t rest : List ℕ)
    → IsCommand type
    → c ≢ 0
    → grub_isspace c ≡ false
    → get_menu_entry_param (text_of type ++ b' ' ∷ c ∷ t) (text_of type ++ 0 ∷ rest)
      ≡ some (some (c ∷ t))
unfolding text_of get_menu_entry_param strlen
get_menu_entry_param-text_of title c t rest h ne space = skip_space_one c t ne space
get_menu_entry_param-text_of kernel c t rest h ne space = skip_space_one c t ne space
get_menu_entry_param-text_of param c t rest h ne space = skip_space_one c t ne space
get_menu_entry_param-text_of machid c t rest h ne space = skip_space_one c t ne space
get_menu_entry_param-text_of CmdType.unknown c t rest h ne space = absurd h

abbrev pub AllDigits : List ℕ → Type 0
AllDigits [] = Unit
AllDigits (c ∷ cs) = (b'0' ≤ c) × (c ≤ b'9') × AllDigits cs

-- The number of decimal digits, behind those whose number is `acc`.
abbrev pub decimal_value : ℕ → List ℕ → ℕ
decimal_value acc [] = acc
decimal_value acc (c ∷ cs) = decimal_value (acc * 10 + (c - b'0')) cs

decimal_value-le : (acc : ℕ) (cs : List ℕ) → acc ≤ decimal_value acc cs
decimal_value-le acc [] = omega arith
decimal_value-le acc (c ∷ cs) = omega (arith, decimal_value-le (acc * 10 + (c - b'0')) cs)

-- atoi reads digits before a NUL whose number is an int.
pub atoi_loop-decimal_value :
    (cs rest : List ℕ) (acc : ℕ)
    → AllDigits cs
    → decimal_value acc cs < 2 ^ 31
    → atoi_loop (cs ++ 0 ∷ rest) acc ≡ some (decimal_value acc cs)
unfolding atoi_loop
atoi_loop-decimal_value [] rest acc digits fits = refl
atoi_loop-decimal_value (c ∷ cs) rest acc (low, high, digits) fits =
    let is_digit : (leb b'0' c && leb c b'9') ≡ true = ground arith in
    let small : ltb (acc * 10 + (c - b'0')) (2 ^ 31) ≡ true =
      ground (arith, decimal_value-le (acc * 10 + (c - b'0')) cs) in
    rw (is_digit, small) (atoi_loop-decimal_value cs rest (acc * 10 + (c - b'0')) digits fits)
