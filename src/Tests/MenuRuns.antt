-- ===== src/Tests/MenuRuns.antt =====
-- Runs of the boot menu of src/blob/menu.c and boot_modes.c.
use gen_blob.Base.{
  ℕ, ◌%◌, ◌++◌, true, false, List, [], ◌∷◌, none, some, ◌≡◌, refl, arith, pos, length, replicate,
  store,
}
use gen_blob.Menu.{
  grub_isspace, grub_malloc, put_char, unescape, append_char, line_char, line_turn, finish_line,
  line_loop, get_line,
}
use gen_blob.Menu.Entries.{kernel, param, on_line}
use gen_blob.Menu.Entries.Word.{IsWord}
use gen_blob.Menu.Commands.{Text, conf}
use gen_blob.Menu.RoundTrip.{Spec, write_conf}
use gen_blob.Menu.Select.{is_up, is_down}
use gen_blob.Menu.Select.Cursor.{steps}
use gen_blob.Boot.{Machine}
use gen_blob.Menu.Overflow.{on_line_overflow}

-- The second line is joined to the first behind its backslash.
joined_line :
    get_line (record { content = b'a' ∷ b'\\' ∷ b'\n' ∷ b'b' ∷ b'\n' ∷ b'c' ∷ []; size = pos 6 }) 0
    ≡ some (
      some (b'a' ∷ b' ' ∷ b'b' ∷ replicate 61 0),
      record { content = b'c' ∷ []; size = pos 1 },
      64,
    )
unfolding get_line line_loop line_turn line_char unescape append_char put_char finish_line
    grub_malloc grub_isspace store
joined_line = refl

abbrev letter : ℕ → Text
letter c = record { head = c; tail = [] }

abbrev spec : ℕ → Spec
spec c = record { title = letter c; kernel = letter 65; param = letter 66; machid = letter 55 }

abbrev specs : List Spec
specs = spec 67 ∷ spec 68 ∷ spec 69 ∷ []

-- Down and twice up from the first of three entries is the third.
abbrev moves : List ℕ
moves = 0x44 ∷ 0x04 ∷ 0x04 ∷ []

abbrev old_word : List ℕ
old_word = replicate 10 0

abbrev machine : Machine
machine = record {
  enter_dumpkeys = false;
  enter_usb = false;
  enter_menu = true;
  gen1_kernel = true;
  gen2_kernel = false;
  card = true;
  config_file = (pos (length (write_conf specs [])), write_conf specs (0 ∷ []));
  enter_menu_later = true;
  keys = moves ++ 0x14 ∷ [];
  kernel_size = λ name. pos 0x100000;
}

third : steps 3 moves % 3 ≡ 2
unfolding is_up is_down
third = refl

-- initramfs
abbrev long_word : List ℕ
long_word = b'i' ∷ b'n' ∷ b'i' ∷ b't' ∷ b'r' ∷ b'a' ∷ b'm' ∷ b'f' ∷ b's' ∷ b'1' ∷ []

long_word-IsWord : IsWord long_word
unfolding grub_isspace
long_word-IsWord =
    (refl, (refl, (refl, (refl, (refl, (refl, (refl, (refl, (refl, (refl, tt))))))))))

on_line_overflow_example : on_line (long_word ++ b' ' ∷ 0 ∷ []) (conf [] 0 0 old_word [] 0 0) ≡ none
on_line_overflow_example =
    on_line_overflow long_word (b' ' ∷ 0 ∷ []) (conf [] 0 0 old_word [] 0 0) long_word-IsWord
      (omega arith) (omega arith)
