-- ===== src/Debug.antt =====
-- The commands of src/blob/debug.c that look at memory and change it, with MyMemCpy of
-- src/lib/util.c. Their messages are left out, but for the values that are shown.
pub mod Words
pub mod PokePeek
pub mod Copies
pub mod WrongWord
use Prim.Native.Nat.{bit_xor}
use gen_blob.Base.{
  ℕ, zero, suc, ◌+◌, ◌-◌, ◌*◌, ◌/◌, ◌%◌, ◌^◌, Bool, true, false, not, ◌||◌, ◌&&◌, List, [], ◌∷◌,
  Option, none, some, ltb, leb, ◌==◌, if◌then◌else◌, ℤ, is_neg, u8, u32, bit_and, bit_or, length,
  get_elem?,
}
use gen_blob.History.{einval}
use gen_blob.Number.{strtou32}
use gen_blob.Loader.Memory.{Memory, byte_at, word_at, write_bytes}

abbrev pub ealign : ℕ
ealign = 6

-- A command returns 0 with a result, or is left by ERR with a number, or reads outside an array.
pub data Run {ℓ} (A : Type ℓ) : Type ℓ where
  ok : A → Run A
  err : ℕ → Run A
  fault : Run A

infixl 5 ◌>>=◌ ◌>>◌
abbrev pub ◌>>=◌ {ℓ κ} : {A : Type ℓ} {B : Type κ} → Run A → (A → Run B) → Run B
ok a >>= f = f a
err e >>= f = err e
fault >>= f = fault

abbrev pub ◌>>◌ {ℓ} : {B : Type ℓ} → Run (Unit {0}) → Run B → Run B
m >> k = m >>= λ _. k

-- `if (…) ERR(e)`
abbrev pub err_if : Bool → ℕ → Run (Unit {0})
err_if true e = err e
err_if false e = ok tt

-- `argv[i]` as a number
unfoldable pub number : List (List ℕ) → ℕ → Run ℕ
number argv i = elim (get_elem? argv i) [
  | none ↦ fault
  | some str ↦ elim (strtou32 str) [
    | none ↦ fault
    | some (code, value) ↦ if is_neg code then err einval else ok value
  ]
]

-- `argv[i][0]`
unfoldable pub first_char : List (List ℕ) → ℕ → Run ℕ
first_char argv i = elim (get_elem? argv i) [
  | none ↦ fault
  | some str ↦ elim (get_elem? str 0) [ none ↦ fault | some c ↦ ok c ]
]

-- `*((u32 *) a) = v`
unfoldable pub write_word : Memory → ℕ → ℕ → Memory
write_word m a v =
    write_bytes m a (v % 2 ^ 8 ∷ v / 2 ^ 8 % 2 ^ 8 ∷ v / 2 ^ 16 % 2 ^ 8 ∷ v / 2 ^ 24 % 2 ^ 8 ∷ [])

-- MyMemCpy
unfoldable pub my_mem_cpy : ℕ → ℕ → ℕ → Memory → Memory
my_mem_cpy dest src zero m = m
my_mem_cpy dest src (suc num_words) m =
    my_mem_cpy (u32 (dest + 4)) (u32 (src + 4)) num_words (write_word m dest (word_at m src))

unfoldable pub cmd_memcpy : List (List ℕ) → Memory → Run Memory
cmd_memcpy argv m = do
  err_if (ltb (length argv) 4) einval
  src ← number argv 1
  dest ← number argv 2
  len ← number argv 3
  err_if (not (src % 4 == 0) || not (dest % 4 == 0)) ealign
  let words = if not (len % 4 == 0) then len / 4 + 1 else len / 4
  ok (my_mem_cpy dest src words m)

pub data Width : Type 0 where
  byte half word : Width

-- The `switch` on `type | 0x20` with its check of the alignment.
unfoldable pub check_width : ℕ → ℕ → Run Width
check_width type address =
    if bit_or type 0x20 == b'b'
    then ok byte
    else if bit_or type 0x20 == b'h'
    then (do err_if (not (address % 2 == 0)) ealign; ok half)
    else if bit_or type 0x20 == b'w'
    then (do err_if (not (address % 4 == 0)) ealign; ok word)
    else err einval

unfoldable pub write_width : Width → Memory → ℕ → ℕ → Memory
write_width byte m address value = write_bytes m address (value % 2 ^ 8 ∷ [])
write_width half m address value =
    write_bytes m address (value % 2 ^ 8 ∷ value / 2 ^ 8 % 2 ^ 8 ∷ [])
write_width word m address value = write_word m address value

unfoldable pub read_width : Width → Memory → ℕ → ℕ
read_width byte m address = byte_at m address
read_width half m address = byte_at m address + 2 ^ 8 * byte_at m (address + 1)
read_width word m address = word_at m address

unfoldable pub poke : List (List ℕ) → Memory → Run Memory
poke argv m = do
  err_if (ltb (length argv) 3) einval
  address ← number argv 1
  value ← number argv 2
  type ← if leb 3 (length argv) then first_char argv 3 else ok b'w'
  width ← check_width type address
  ok (write_width width m address value)

-- The value that is shown.
unfoldable pub peek : List (List ℕ) → Memory → Run ℕ
peek argv m = do
  err_if (ltb (length argv) 2) einval
  address ← number argv 1
  type ← if leb 2 (length argv) then first_char argv 2 else ok b'w'
  width ← check_width type address
  ok (read_width width m address)

-- The two inner loops of dump, which take no turn where `end` has wrapped around.
unfoldable pub dump_words : ℕ → ℕ → ℕ → Memory → List ℕ
dump_words zero tmp end m = []
dump_words (suc n) tmp end m =
    let rest = dump_words n (u32 (tmp + 4)) end m in
    if ltb tmp end then word_at m tmp ∷ rest else []

unfoldable pub dump_chars : ℕ → ℕ → ℕ → Memory → List ℕ
dump_chars zero tmp end m = []
dump_chars (suc n) tmp end m =
    let value = byte_at m tmp in
    let shown = if leb b' ' value && leb value b'~' then value else b'.' in
    let rest = dump_chars n (u32 (tmp + 1)) end m in if ltb tmp end then shown ∷ rest else []

-- A line: the address, four words and sixteen characters.
unfoldable pub dump_row : ℕ → Memory → ℕ × List ℕ × List ℕ
dump_row address m =
    let end = u32 (address + 0x10) in
    (address, dump_words 4 address end m, dump_chars 16 address end m)

-- The outer loop, on fuel: it does not end where the address wraps around below the end.
unfoldable pub dump_loop : ℕ → ℕ → ℕ → Memory → Run (List (ℕ × List ℕ × List ℕ))
dump_loop zero address endaddress m = fault
dump_loop (suc fuel) address endaddress m =
    let rest = dump_loop fuel (u32 (address + 0x10)) endaddress m in
    if ltb address endaddress then (do rows ← rest; ok (dump_row address m ∷ rows)) else ok []

unfoldable pub dump : ℕ → List (List ℕ) → Memory → Run (List (ℕ × List ℕ × List ℕ))
dump fuel argv m = do
  err_if (ltb (length argv) 2) einval
  address ← number argv 1
  endaddress ← if length argv == 3 then number argv 2 else ok (u32 (address + 0x80))
  err_if (not (address % 4 == 0) || not (endaddress % 4 == 0)) ealign
  dump_loop fuel address endaddress m

-- The `switch` of BitChange on `argv[3][0] & (~0x20)`.
unfoldable pub change : ℕ → ℕ → ℕ → Run ℕ
change op old value =
    let c = bit_and op 0xdf in
    if c == b'A'
    then ok (bit_and old value)
    else if c == b'S' || c == b'O'
    then ok (bit_or old value)
    else if c == b'X'
    then ok (bit_xor old value)
    else if c == b'C'
    then ok (bit_and old (2 ^ 32 - 1 - value))
    else err einval

-- The test of the alignment is an assignment: `adr &= 0x03`.
unfoldable pub bit_change : List (List ℕ) → Memory → Run Memory
bit_change argv m = do
  err_if (ltb (length argv) 4) einval
  adr ← number argv 1
  value ← number argv 2
  let adr' = adr % 4
  err_if (not (adr' == 0)) ealign
  op ← first_char argv 3
  new ← change op (word_at m adr') value
  ok (write_word m adr' new)

-- An argument that is there if `argc` is large enough, or else 0.
unfoldable pub optional : List (List ℕ) → ℕ → ℕ → Run ℕ
optional argv argc i = if leb argc (length argv) then number argv i else ok 0

-- The address that Call calls, and the four arguments.
unfoldable pub call : List (List ℕ) → Run (ℕ × ℕ × ℕ × ℕ × ℕ)
call argv = do
  err_if (ltb (length argv) 2 || ltb 6 (length argv)) einval
  adr ← number argv 1
  a ← optional argv 3 2
  b ← optional argv 4 2
  c ← optional argv 5 2
  d ← optional argv 6 2
  ok (adr, a, b, c, d)
