-- ===== src/Menu/Commands.antt =====
-- A line with a command and a text, from the file of src/blob/menu.c to the entry that it changes.
use gen_blob.Base.{
  ℕ, suc, ◌+◌, ◌-◌, ◌≤◌, ◌≡◌, ◌≢◌, ap, false, ne→==, List, [], ◌∷◌, ◌++◌, some, refl, arith, pos,
  length, replicate, drop, length-append,
}
use gen_blob.Menu.{grub_isspace, get_line}
use gen_blob.Menu.Lines.{IsPlain, AllPlain, get_line-AllPlain}
use gen_blob.Menu.Entries.{
  CmdType, title, kernel, param, machid, Entry, Conf, update_last, is_empty, on_command, on_line,
  title_text, kernel_text, param_text, machid_text,
}
use gen_blob.Menu.Entries.Word.{
  IsCommand, text_of, text_of-IsWord, get_cmd_word-IsWord, get_cmd_type-text_of,
}

-- A text of at least one character.
pub record Text : Type 0 where
  pub head : ℕ
  pub tail : List ℕ

-- Plain characters, at most 56, of which the first is no space.
pub record IsText (t : Text) : Type 0 where
  pub first : IsPlain t.head
  pub no_space : t.head ≢ b' '
  pub plain : AllPlain t.tail
  pub short : length t.tail ≤ 55

-- A line of the file, and what follows it.
abbrev pub line : CmdType → Text → List ℕ → List ℕ
line type t rest = (text_of type ++ b' ' ∷ t.head ∷ t.tail) ++ b'\n' ∷ rest

-- The NULs behind the text in the block of its line.
abbrev pub padding : CmdType → Text → ℕ
padding type t = 62 - length (text_of type) - length t.tail

-- The pointer to the text in the block of its line.
abbrev pub pointer : CmdType → Text → List ℕ
pointer type t = t.head ∷ t.tail ++ replicate (padding type t) 0

abbrev pub conf : List ℕ → ℕ → ℕ → List ℕ → List Entry → ℕ → ℕ → Conf
conf content size heap cmd entries num default = record {
  file = record { content = content; size = pos size };
  heap = heap;
  cmd = cmd;
  entries = entries;
  num = num;
  default_machid = default;
}

-- The array of the command behind get_cmd_word.
abbrev pub word_array : CmdType → List ℕ → List ℕ
word_array type cmd = text_of type ++ 0 ∷ drop (suc (length (text_of type))) cmd

pub head_isspace : (t : Text) → IsText t → grub_isspace t.head ≡ false
unfolding grub_isspace
head_isspace t v =
    let (z, tab, n, r, b) = v.first in
    rw
      (
        ne→== t.head b'\n' n,
        ne→== t.head b'\r' r,
        ne→== t.head b' ' v.no_space,
        ne→== t.head b'\t' tab,
      )
      refl

IsPlain-letter : (c : ℕ) → b' ' ≤ c → c ≢ b'\\' → IsPlain c
IsPlain-letter c h b = (
  (λ (e : c ≡ 0). absurd (omega arith)),
  (λ (e : c ≡ b'\t'). absurd (omega arith)),
  (λ (e : c ≡ b'\n'). absurd (omega arith)),
  (λ (e : c ≡ b'\r'). absurd (omega arith)),
  b,
)

abbrev IsLetters : List ℕ → Type 0
IsLetters [] = Unit
IsLetters (c ∷ w) = (b'^' ≤ c) × IsLetters w

AllPlain-letters :
    (w : List ℕ) (t : Text) → IsLetters w → IsText t → AllPlain (w ++ b' ' ∷ t.head ∷ t.tail)
AllPlain-letters [] t h v =
    (IsPlain-letter b' ' (omega arith) (λ e. absurd (omega arith)), (v.first, v.plain))
AllPlain-letters (c ∷ w) t h v =
    (IsPlain-letter c (omega arith) (λ e. absurd (omega arith)), AllPlain-letters w t h.1 v)

-- A line of a command is read into a block of its own.
get_line-word :
    (c : ℕ) (w : List ℕ) (t : Text) (rest : List ℕ) (s size heap : ℕ)
    → IsText t
    → b'^' ≤ c
    → IsLetters w
    → length w ≤ 5
    → size ≡ length w + length t.tail + s + 4
    → heap + 64 ≤ 10240
    → get_line
        (record { content = ((c ∷ w) ++ b' ' ∷ t.head ∷ t.tail) ++ b'\n' ∷ rest; size = pos size })
        heap
      ≡ some (
        some ((c ∷ w) ++ b' ' ∷ t.head ∷ t.tail ++ replicate (61 - length w - length t.tail) 0),
        record { content = rest; size = pos s },
        heap + 64,
      )
get_line-word c w t rest s size heap v letter letters long total room =
    let xs : List ℕ = w ++ b' ' ∷ t.head ∷ t.tail in
    let n : length xs ≡ length w + length t.tail + 2 =
      omega (arith, length-append w (b' ' ∷ t.head ∷ t.tail)) in
    let k : 61 - length w - length t.tail ≡ suc (60 - length w - length t.tail) =
      omega (arith, v.short) in
    let sum : size ≡ suc (length xs + suc s) = omega arith in
    rw (sum, k)
      (get_line-AllPlain c xs rest (60 - length w - length t.tail) s heap
        (IsPlain-letter c (omega arith) (λ e. absurd (omega arith))) (λ e. absurd (omega arith))
        (λ e. absurd (omega arith)) (AllPlain-letters w t letters v) (omega (arith, v.short)) room)

pub get_line-text_of :
    (type : CmdType) (t : Text) (rest : List ℕ) (s size heap : ℕ)
    → IsCommand type
    → IsText t
    → size ≡ length (text_of type) + length t.tail + s + 3
    → heap + 64 ≤ 10240
    → get_line (record { content = line type t rest; size = pos size }) heap
      ≡ some (
        some (text_of type ++ b' ' ∷ pointer type t),
        record { content = rest; size = pos s },
        heap + 64,
      )
unfolding text_of
get_line-text_of title t rest s size heap h v total room =
    get_line-word b't' (drop 1 title_text) t rest s size heap v (omega arith) (omega arith)
      (omega arith) (omega arith) room
get_line-text_of kernel t rest s size heap h v total room =
    get_line-word b'k' (drop 1 kernel_text) t rest s size heap v (omega arith) (omega arith)
      (omega arith) (omega arith) room
get_line-text_of param t rest s size heap h v total room =
    get_line-word b'p' (drop 1 param_text) t rest s size heap v (omega arith) (omega arith)
      (omega arith) (omega arith) room
get_line-text_of machid t rest s size heap h v total room =
    get_line-word b'm' (drop 1 machid_text) t rest s size heap v (omega arith) (omega arith)
      (omega arith) (omega arith) room
get_line-text_of CmdType.unknown t rest s size heap h v total room = absurd h

-- The line runs its command.
pub on_line-on_command :
    (type : CmdType) (text : List ℕ) (c : Conf)
    → IsCommand type
    → length c.cmd ≡ 10
    → on_line (text_of type ++ b' ' ∷ text) c
      ≡ on_command type (text_of type ++ b' ' ∷ text) (record c { cmd = word_array type c.cmd })
unfolding on_line
on_line-on_command type text c h long =
    let (word, short) = text_of-IsWord type h in
    rw
      (
        get_cmd_word-IsWord (text_of type) c.cmd text word (omega arith) long,
        get_cmd_type-text_of type (drop (suc (length (text_of type))) c.cmd) h,
      )
      refl

pub update_last-append :
    (f : Entry → Entry) (es : List Entry) (e : Entry)
    → update_last f (es ++ e ∷ []) ≡ es ++ f e ∷ []
unfolding update_last
update_last-append f [] e = refl
update_last-append f (x ∷ []) e = refl
update_last-append f (x ∷ y ∷ es) e = ap (◌∷◌ x) (update_last-append f (y ∷ es) e)

pub is_empty-append : (es : List Entry) (e : Entry) → is_empty (es ++ e ∷ []) ≡ false
is_empty-append [] e = refl
is_empty-append (x ∷ es) e = refl
