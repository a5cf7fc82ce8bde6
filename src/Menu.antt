-- ===== src/Menu.antt =====
-- The boot menu's configuration file, src/blob/menu.c: the heap that is only given out, the lines of
-- the file, their commands and the entries. What file_fat_read of src/blob/fat.c gives is an argument.
pub mod Entries
pub mod Lines
pub mod Commands
pub mod Turns
pub mod RoundTrip
pub mod Select
pub mod Overflow
use gen_blob.Base.{
  ℕ, zero, suc, ◌+◌, ◌-◌, ◌*◌, ◌^◌, Bool, true, false, not, ◌||◌, ◌&&◌, List, [], ◌∷◌, ◌++◌, Option,
  none, some, leb, ltb, ◌==◌, if◌then◌else◌, ℤ, pos, negsuc, store, replicate, ◌>>=◌,
}

abbrev pub max_word_nr : ℕ
max_word_nr = 10

abbrev pub max_file_size : ℕ
max_file_size = 2048

abbrev pub max_heap_size : ℕ
max_heap_size = 10240

-- `p_heap` after grub_malloc, as an offset into `heap`, and whether the block lies inside.
unfoldable pub grub_malloc : ℕ → ℕ → Bool × ℕ
grub_malloc n p_heap = (leb (p_heap + n) max_heap_size, p_heap + n)

-- `file_content` and `file_size`
pub record File : Type 0 where
  pub content : List ℕ
  pub size : ℤ

unfoldable pub grub_isspace : ℕ → Bool
grub_isspace c = c == b'\n' || c == b'\r' || c == b' ' || c == b'\t'

-- The variables of get_line, where the block at `cmdline` has `max_len` bytes.
pub record Line : Type 0 where
  pub cmdline : List ℕ
  pub pos : ℕ
  pub literal : Bool
  pub comment : Bool
  pub max_len : ℕ

-- What a turn of the loop of get_line comes to: the next one, `break`, or `return 0`.
pub data Turn : Type 0 where
  next : Line → Turn
  ended : Line → Turn
  failed : Turn

-- `cmdline[pos++] = c`
unfoldable pub put_char : ℕ → Line → Option Line
put_char c l = do
  cmdline ← store l.cmdline l.pos c
  some (record l { cmdline = cmdline; pos = l.pos + 1 })

-- The tests for a backslash before the character, and for one.
unfoldable pub unescape : ℕ → Line → ℕ × Line
unescape c l =
    let joined = l.literal && c == b'\n' in
    let c' = if joined then b' ' else c in
    (c', record l { pos = if joined then l.pos - 1 else l.pos; literal = c' == b'\\' })

-- grub_realloc: the new block with the first half of it copied.
unfoldable pub grow : Line → ℕ → Option Line × ℕ
grow l heap =
    let max_len = l.max_len * 2 in
    let (given, heap') = grub_malloc max_len heap in
    if given
    then (
      some (record l { cmdline = l.cmdline ++ replicate l.max_len 0; max_len = max_len }),
      heap',
    )
    else (none, heap')

unfoldable pub append_char : ℕ → Line → ℕ → Option (Turn × ℕ)
append_char c l heap =
    let (grown, heap') = grow l heap in
    let put = λ (l' : Line) (h : ℕ). (do l'' ← put_char c l'; some (next l'', h)) in
    if leb l.max_len l.pos
    then elim grown [ none ↦ some (failed, heap') | some l' ↦ put l' heap' ]
    else put l heap

-- Behind the test for a backslash.
unfoldable pub line_char : ℕ → Line → ℕ → Option (Turn × ℕ)
line_char c l heap =
    if l.comment
    then some (next (record l { comment = not (c == b'\n') }), heap)
    else if l.pos == 0
    then (if c == b'#'
        then some (next (record l { comment = true }), heap)
        else if not (grub_isspace c)
        then (do l' ← put_char c l; some (next l', heap))
        else some (next l, heap))
    else if c == b'\n'
    then some (ended l, heap)
    else append_char c l heap

unfoldable pub line_turn : ℕ → Line → ℕ → Option (Turn × ℕ)
line_turn c l heap =
    let (c', l') = unescape (if c == b'\t' then b' ' else c) l in
    if c == b'\r' then some (next l, heap) else line_char c' l' heap

-- The NUL, and no line if it is empty.
unfoldable pub finish_line : Line → Option (Option (List ℕ))
finish_line l = do
  cmdline ← store l.cmdline l.pos 0
  some (if l.pos == 0 then none else some cmdline)

abbrev pub pred_ℤ : ℤ → ℤ
pred_ℤ (pos zero) = negsuc 0
pred_ℤ (pos (suc n)) = pos n
pred_ℤ (negsuc n) = negsuc (suc n)

-- `file_size == 0`
abbrev pub at_end : ℤ → Bool
at_end (pos zero) = true
at_end _ = false

-- The loop of get_line over what is left of the file, which is `none` behind the buffer.
unfoldable pub line_loop : List ℕ → ℤ → Line → ℕ → Option (Option (List ℕ) × File × ℕ)
line_loop [] size l heap =
    if at_end size
    then (do line ← finish_line l; some (line, record { content = []; size = size }, heap))
    else none
line_loop (c ∷ content) size l heap =
    let read = (do
      (turn, heap') ← line_turn c l heap
      elim turn [
        | next l' ↦ line_loop content (pred_ℤ size) l' heap'
        | ended l' ↦ (do
          line ← finish_line l'
          some (line, record { content = content; size = pred_ℤ size }, heap'))
        | failed ↦ some (none, record { content = content; size = pred_ℤ size }, heap')
      ]) in
    if at_end size
    then (do line ← finish_line l; some (line, record { content = c ∷ content; size = size }, heap))
    else read

-- The line, if there is one, with the rest of the file and the heap.
unfoldable pub get_line : File → ℕ → Option (Option (List ℕ) × File × ℕ)
get_line file heap =
    let (given, heap') = grub_malloc 64 heap in
    let line : Line = record {
      cmdline = replicate 64 0;
      pos = 0;
      literal = false;
      comment = false;
      max_len = 64;
    } in
    if given then line_loop file.content file.size line heap' else some (none, file, heap')
