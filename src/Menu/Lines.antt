-- ===== src/Menu/Lines.antt =====
-- get_line of src/blob/menu.c on a line of the file without the characters that it treats apart.
use gen_blob.Base.{
  ℕ, zero, suc, ◌+◌, ◌≤◌, ◌<◌, ◌≡◌, ◌≢◌, true, false, List, [], ◌∷◌, ◌++◌, some, refl, arith, leb,
  ◌==◌, ne→==, pos, length, replicate, store-append, append_assoc, append-nil, length-append,
}
use gen_blob.Menu.{
  Line, next, ended, grub_isspace, grub_malloc, put_char, unescape, append_char, line_char,
  line_turn, finish_line, line_loop, get_line,
}

-- No NUL, tab, newline, carriage return or backslash.
abbrev pub IsPlain : ℕ → Type 0
IsPlain c = (c ≢ 0) × (c ≢ b'\t') × (c ≢ b'\n') × (c ≢ b'\r') × (c ≢ b'\\')

abbrev pub AllPlain : List ℕ → Type 0
AllPlain [] = Unit
AllPlain (c ∷ cs) = IsPlain c × AllPlain cs

-- A block of 64 bytes with the characters so far.
abbrev line_of : List ℕ → ℕ → Line
line_of read k = record {
  cmdline = read ++ replicate k 0;
  pos = length read;
  literal = false;
  comment = false;
  max_len = 64;
}

put_char-line_of :
    (read : List ℕ) (k c : ℕ)
    → put_char c (line_of read (suc k)) ≡ some (line_of (read ++ c ∷ []) k)
unfolding put_char
put_char-line_of read k c =
    let long : length (read ++ c ∷ []) ≡ length read + 1 = length-append read (c ∷ []) in
    rw (store-append read 0 (replicate k 0) c, append_assoc, long) refl

line_turn-IsPlain :
    (read : List ℕ) (k c heap : ℕ)
    → IsPlain c
    → 0 < length read
    → length read < 64
    → line_turn c (line_of read (suc k)) heap ≡ some (next (line_of (read ++ c ∷ []) k), heap)
unfolding line_turn unescape line_char append_char
line_turn-IsPlain read k c heap (_, t, n, r, b) h l =
    let started : length read == 0 ≡ false = ground arith in
    let room : leb 64 (length read) ≡ false = ground arith in
    rw (ne→== c b'\t' t, ne→== c b'\n' n, ne→== c b'\r' r, ne→== c b'\\' b, started, room)
      (rw (put_char-line_of read k c) refl)

line_turn_first :
    (k c heap : ℕ)
    → IsPlain c
    → c ≢ b' '
    → c ≢ b'#'
    → line_turn c (line_of [] (suc k)) heap ≡ some (next (line_of (c ∷ []) k), heap)
unfolding line_turn unescape line_char grub_isspace
line_turn_first k c heap (_, t, n, r, b) s p =
    rw
      (
        ne→== c b'\t' t,
        ne→== c b'\n' n,
        ne→== c b'\r' r,
        ne→== c b'\\' b,
        ne→== c b' ' s,
        ne→== c b'#' p,
        ne→== c b'\t' t,
      )
      (rw (put_char-line_of [] k c) refl)

line_turn_newline :
    (read : List ℕ) (k heap : ℕ)
    → 0 < length read
    → line_turn b'\n' (line_of read k) heap ≡ some (ended (line_of read k), heap)
unfolding line_turn unescape line_char
line_turn_newline read k heap h =
    let started : length read == 0 ≡ false = ground arith in rw started refl

finish_line-line_of :
    (read : List ℕ) (k : ℕ)
    → 0 < length read
    → finish_line (line_of read (suc k)) ≡ some (some (read ++ replicate (suc k) 0))
unfolding finish_line
finish_line-line_of read k h =
    let started : length read == 0 ≡ false = ground arith in
    rw (store-append read 0 (replicate k 0) 0, started) refl

line_loop-AllPlain :
    (read xs rest : List ℕ) (k s size room heap : ℕ)
    → AllPlain xs
    → 0 < length read
    → length read + room ≡ 64
    → room ≡ length xs + suc k
    → size ≡ length xs + suc s
    → line_loop (xs ++ b'\n' ∷ rest) (pos size) (line_of read room) heap
      ≡ some (
        some ((read ++ xs) ++ replicate (suc k) 0),
        record { content = rest; size = pos s },
        heap,
      )
unfolding line_loop
line_loop-AllPlain read xs rest k s zero room heap plain h fits r z = absurd (omega arith)
line_loop-AllPlain read xs rest k s (suc size) zero heap plain h fits r z = absurd (omega arith)
line_loop-AllPlain read [] rest k s (suc size) (suc room) heap plain h fits r z =
    let size_s : size ≡ s = omega arith in
    let room_k : room ≡ k = omega arith in
    rw
      (
        line_turn_newline read (suc room) heap h,
        finish_line-line_of read room h,
        append-nil read,
        size_s,
        room_k,
      )
      refl
line_loop-AllPlain read (c ∷ xs) rest k s (suc size) (suc room) heap (first, plain) h fits r z =
    let grown : length (read ++ c ∷ []) ≡ length read + 1 = length-append read (c ∷ []) in
    let joined : (read ++ c ∷ []) ++ xs ≡ read ++ c ∷ xs = append_assoc read (c ∷ []) xs in
    rw (line_turn-IsPlain read room c heap first h (omega arith), ← joined)
      (line_loop-AllPlain (read ++ c ∷ []) xs rest k s size room heap plain (omega arith)
        (omega arith) (omega arith) (omega arith))

-- A line of 1 to 63 plain characters, that does not begin with a space or `#`, is read into a
-- block of 64 bytes that the heap has room for.
pub get_line-AllPlain :
    (c : ℕ) (xs rest : List ℕ) (k s heap : ℕ)
    → IsPlain c
    → c ≢ b' '
    → c ≢ b'#'
    → AllPlain xs
    → length xs + suc k ≡ 63
    → heap + 64 ≤ 10240
    → get_line
        (record { content = (c ∷ xs) ++ b'\n' ∷ rest; size = pos (suc (length xs + suc s)) })
        heap
      ≡ some (
        some ((c ∷ xs) ++ replicate (suc k) 0),
        record { content = rest; size = pos s },
        heap + 64,
      )
unfolding get_line grub_malloc line_loop
get_line-AllPlain c xs rest k s heap first sp hash plain fits h =
    let given : leb (heap + 64) 10240 ≡ true = ground arith in
    rw (given, line_turn_first 63 c (heap + 64) first sp hash)
      (line_loop-AllPlain (c ∷ []) xs rest k s (length xs + suc s) 63 (heap + 64) plain
        (omega arith) (omega arith) (omega arith) (omega arith))
