-- ===== src/Menu/Turns.antt =====
-- A turn of the loop of parse_conf_file in src/blob/menu.c for each of the commands.
use gen_blob.Base.{
  ℕ, suc, ◌+◌, ◌-◌, ◌^◌, ◌≤◌, ◌<◌, ◌≡◌, true, List, [], ◌∷◌, ◌++◌, none, some, refl, arith, leb,
  length, replicate, drop,
}
use gen_blob.Menu.{grub_malloc}
use gen_blob.Menu.Entries.{
  CmdType, title, kernel, param, machid, Entry, Conf, on_title, on_kernel, on_param, on_machid,
  on_command, atoi, atoi_loop, conf_loop, get_menu_entry_param,
}
use gen_blob.Menu.Entries.Word.{
  IsCommand, text_of, text_of-IsWord, get_menu_entry_param-text_of, AllDigits, decimal_value,
  atoi_loop-decimal_value,
}
use gen_blob.Menu.Commands.{
  Text, IsText, line, padding, pointer, conf, word_array, head_isspace, get_line-text_of,
  on_line-on_command, update_last-append, is_empty-append,
}

-- A turn of the loop over a line of a command that goes on.
pub conf_turn :
    (fuel : ℕ) (type : CmdType) (t : Text) (rest : List ℕ) (s size heap : ℕ) (cmd : List ℕ)
    (es : List Entry) (num : ℕ) (after : Conf)
    → IsCommand type
    → IsText t
    → size ≡ length (text_of type) + length t.tail + s + 3
    → heap + 64 ≤ 10240
    → length cmd ≡ 10
    → on_command type
        (text_of type ++ b' ' ∷ pointer type t)
        (conf rest s (heap + 64) (word_array type cmd) es num 0)
      ≡ some (true, after)
    → conf_loop (suc fuel) (conf (line type t rest) size heap cmd es num 0) ≡ conf_loop fuel after
unfolding conf_loop
conf_turn fuel type t rest s size heap cmd es num after h v total room long runs =
    rw
      (
        get_line-text_of type t rest s size heap h v total room,
        on_line-on_command type (pointer type t) (conf rest s (heap + 64) cmd es num 0) h long,
        runs,
      )
      refl

-- The text that a command finds behind its word.
pub finds_text :
    (type : CmdType) (t : Text) (cmd : List ℕ)
    → IsCommand type
    → IsText t
    → get_menu_entry_param (text_of type ++ b' ' ∷ pointer type t) (word_array type cmd)
      ≡ some (some (pointer type t))
finds_text type t cmd h v =
    get_menu_entry_param-text_of type t.head (t.tail ++ replicate (padding type t) 0)
      (drop (suc (length (text_of type))) cmd) h v.first.0 (head_isspace t v)

pub atoi_pointer :
    (type : CmdType) (t : Text)
    → IsCommand type
    → IsText t
    → AllDigits (t.head ∷ t.tail)
    → decimal_value 0 (t.head ∷ t.tail) < 2 ^ 31
    → atoi_loop (pointer type t) 0 ≡ some (decimal_value 0 (t.head ∷ t.tail))
atoi_pointer type t h v digits int =
    let (word, short) = text_of-IsWord type h in
    let k : padding type t ≡ suc (padding type t - 1) = omega (arith, v.short) in
    rw k (atoi_loop-decimal_value (t.head ∷ t.tail) (replicate (padding type t - 1) 0) 0 digits int)

-- What the commands do with the entries.
module _ (t : Text) (rest : List ℕ) (s heap : ℕ) (cmd : List ℕ) (es : List Entry) (num : ℕ) where
  pub title_runs :
      IsText t
      → heap + 24 ≤ 10240
      → on_command title
          (text_of title ++ b' ' ∷ pointer title t)
          (conf rest s heap (word_array title cmd) es num 0)
        ≡ some (
          true,
          conf rest s
              (heap + 24)
              (word_array title cmd)
              (es
                ++ record {
                  id = num;
                  title = some (pointer title t);
                  kernel = none;
                  param = none;
                  machid = 0;
                }
                  ∷ [])
              (num + 1)
              0,
        )
  unfolding on_command on_title grub_malloc
  title_runs v room =
      let given : leb (heap + 24) 10240 ≡ true = ground arith in
      rw (finds_text title t cmd tt v, given, update_last-append) refl

  module _ (e : Entry) where
    pub kernel_runs :
        IsText t
        → on_command kernel
            (text_of kernel ++ b' ' ∷ pointer kernel t)
            (conf rest s heap (word_array kernel cmd) (es ++ e ∷ []) num 0)
          ≡ some (
            true,
            conf rest s heap
                (word_array kernel cmd)
                (es ++ record e { kernel = some (pointer kernel t) } ∷ [])
                num
                0,
          )
    unfolding on_command on_kernel
    kernel_runs v = rw (finds_text kernel t cmd tt v, is_empty-append es e, update_last-append) refl

    pub param_runs :
        IsText t
        → on_command param
            (text_of param ++ b' ' ∷ pointer param t)
            (conf rest s heap (word_array param cmd) (es ++ e ∷ []) num 0)
          ≡ some (
            true,
            conf rest s heap
                (word_array param cmd)
                (es ++ record e { param = some (pointer param t) } ∷ [])
                num
                0,
          )
    unfolding on_command on_param
    param_runs v = rw (finds_text param t cmd tt v, is_empty-append es e, update_last-append) refl

    pub machid_runs :
        IsText t
        → AllDigits (t.head ∷ t.tail)
        → decimal_value 0 (t.head ∷ t.tail) < 2 ^ 31
        → on_command machid
            (text_of machid ++ b' ' ∷ pointer machid t)
            (conf rest s heap (word_array machid cmd) (es ++ e ∷ []) num 0)
          ≡ some (
            true,
            conf rest s heap
                (word_array machid cmd)
                (es ++ record e { machid = decimal_value 0 (t.head ∷ t.tail) } ∷ [])
                num
                0,
          )
    unfolding on_command on_machid atoi
    machid_runs v digits int =
        rw
          (
            finds_text machid t cmd tt v,
            atoi_pointer machid t tt v digits int,
            is_empty-append es e,
            update_last-append,
          )
          refl
