-- ===== src/Debug/Copies.antt =====
-- The command memcpy of src/blob/debug.c copies words upwards.
use gen_blob.Base.{
  ℕ, zero, suc, ◌+◌, ◌*◌, ◌/◌, ◌%◌, ◌^◌, ◌≤◌, ◌<◌, ◌≡◌, ◌∙◌, ◌⊎◌, inl, inr, true, false, not, ◌==◌,
  List, refl, arith, ltb, length, u32, Bool-cases, if◌then◌else◌,
}
use gen_blob.Loader.Memory.{Memory, word_at, write_bytes}
use gen_blob.Debug.{ok, word, number, write_word, my_mem_cpy, cmd_memcpy}
use gen_blob.Debug.Words.{read_width-write_width, word_at-write_word_other}

-- A memory of bytes.
abbrev pub IsByteMemory : Memory → Type 0
IsByteMemory m = (x : ℕ) → m x < 256

word_at-lt : (m : Memory) (a : ℕ) → IsByteMemory m → word_at m a < 2 ^ 32
word_at-lt m a bytes =
    omega (arith, bytes (u32 a), bytes (u32 (a + 1)), bytes (u32 (a + 2)), bytes (u32 (a + 3)))

write_word-IsByteMemory : (m : Memory) (a v : ℕ) → IsByteMemory m → IsByteMemory (write_word m a v)
unfolding write_word write_bytes
write_word-IsByteMemory m a v bytes x = ground (arith, bytes x)

word_at-write_word : (m : Memory) (a v : ℕ) → v < 2 ^ 32 → word_at (write_word m a v) a ≡ v
unfolding gen_blob.Debug.read_width gen_blob.Debug.write_width
word_at-write_word m a v h = let same = read_width-write_width word m a v h in omega (arith, same)

-- The words are those of the source, and all other words are left alone.
abbrev pub Copied : ℕ → ℕ → ℕ → Memory → Memory → Type 0
Copied n dest src m m' =
    ((i : ℕ) → i < n → word_at m' (dest + 4 * i) ≡ word_at m (src + 4 * i))
    × ((b : ℕ) → b + 4 ≤ 2 ^ 32 → (b + 4 ≤ dest) ⊎ (dest + 4 * n ≤ b) → word_at m' b ≡ word_at m b)

-- The ranges lie apart, or the destination is not above the source by part of a word.
abbrev pub Ordered : ℕ → ℕ → ℕ → Type 0
Ordered n dest src = (dest ≡ src) ⊎ ((dest + 4 ≤ src) ⊎ (src + 4 * n ≤ dest))

Ordered-next : (n dest src : ℕ) → Ordered (suc n) dest src → Ordered n (dest + 4) (src + 4)
Ordered-next n dest src (inl e) = inl (omega arith)
Ordered-next n dest src (inr (inl h)) = inr (inl (omega arith))
Ordered-next n dest src (inr (inr h)) = inr (inr (omega arith))

source_apart :
    (n dest src i : ℕ)
    → Ordered (suc n) dest src
    → i < n
    → (src + 4 + 4 * i + 4 ≤ dest) ⊎ (dest + 4 ≤ src + 4 + 4 * i)
source_apart n dest src i (inl e) h = inr (omega arith)
source_apart n dest src i (inr (inl h')) h = inr (omega arith)
source_apart n dest src i (inr (inr h')) h = inl (omega arith)

Copied-words :
    (n dest src : ℕ) (m m' : Memory)
    → IsByteMemory m
    → dest + 4 * suc n < 2 ^ 32
    → src + 4 * suc n < 2 ^ 32
    → Ordered (suc n) dest src
    → Copied n (dest + 4) (src + 4) (write_word m dest (word_at m src)) m'
    → (i : ℕ) → i < suc n
    → word_at m' (dest + 4 * i) ≡ word_at m (src + 4 * i)
Copied-words n dest src m m' bytes rd rs ordered later zero h =
    let d0 : dest + 4 * 0 ≡ dest = omega arith in
    let s0 : src + 4 * 0 ≡ src = omega arith in
    rw (d0, s0)
      (later.1 dest (omega arith) (inl (omega arith))
        ∙ word_at-write_word m dest (word_at m src) (word_at-lt m src bytes))
Copied-words n dest src m m' bytes rd rs ordered later (suc i) h =
    let d : dest + 4 * suc i ≡ dest + 4 + 4 * i = omega arith in
    let s : src + 4 * suc i ≡ src + 4 + 4 * i = omega arith in
    rw (d, s)
      (later.0 i (omega arith)
        ∙ word_at-write_word_other m dest (src + 4 + 4 * i) (word_at m src) (omega arith)
            (omega arith) (source_apart n dest src i ordered (omega arith)))

kept_word :
    (n dest src : ℕ) (m m' : Memory)
    → dest + 4 * suc n < 2 ^ 32
    → Copied n (dest + 4) (src + 4) (write_word m dest (word_at m src)) m'
    → (b : ℕ) → b + 4 ≤ 2 ^ 32
    → (b + 4 ≤ dest) ⊎ (dest + 4 * suc n ≤ b)
    → word_at m' b ≡ word_at m b
kept_word n dest src m m' rd later b rb (inl before) =
    later.1 b rb (inl (omega arith))
    ∙ word_at-write_word_other m dest b (word_at m src) (omega arith) rb (inl (omega arith))
kept_word n dest src m m' rd later b rb (inr behind) =
    later.1 b rb (inr (omega arith))
    ∙ word_at-write_word_other m dest b (word_at m src) (omega arith) rb (inr (omega arith))

Copied-next :
    (n dest src : ℕ) (m m' : Memory)
    → IsByteMemory m
    → dest + 4 * suc n < 2 ^ 32
    → src + 4 * suc n < 2 ^ 32
    → Ordered (suc n) dest src
    → Copied n (dest + 4) (src + 4) (write_word m dest (word_at m src)) m'
    → Copied (suc n) dest src m m'
Copied-next n dest src m m' bytes rd rs ordered later = (
  Copied-words n dest src m m' bytes rd rs ordered later,
  λ b rb apart. kept_word n dest src m m' rd later b rb apart,
)

my_mem_cpy-Copied :
    (n dest src : ℕ) (m : Memory)
    → IsByteMemory m
    → dest + 4 * n < 2 ^ 32
    → src + 4 * n < 2 ^ 32
    → Ordered n dest src
    → Copied n dest src m (my_mem_cpy dest src n m)
unfolding my_mem_cpy
my_mem_cpy-Copied zero dest src m bytes rd rs ordered =
    ((λ i h. absurd (omega arith)), λ b rb apart. refl)
my_mem_cpy-Copied (suc n) dest src m bytes rd rs ordered =
    let m1 : Memory = write_word m dest (word_at m src) in
    let m' : Memory = my_mem_cpy (dest + 4) (src + 4) n m1 in
    let step_d : u32 (dest + 4) ≡ dest + 4 = omega arith in
    let step_s : u32 (src + 4) ≡ src + 4 = omega arith in
    let order : Ordered n (dest + 4) (src + 4) = Ordered-next n dest src ordered in
    let later =
      my_mem_cpy-Copied n (dest + 4) (src + 4) m1
        (write_word-IsByteMemory m dest (word_at m src) bytes) (omega arith) (omega arith) order in
    rw (step_d, step_s) (Copied-next n dest src m m' bytes rd rs ordered later)

in_order :
    (n dest src : ℕ)
    → src % 4 ≡ 0
    → dest % 4 ≡ 0
    → (dest ≤ src) ⊎ (src + 4 * n ≤ dest)
    → Ordered n dest src
in_order n dest src align_s align_d (inr h) = inr (inr h)
in_order n dest src align_s align_d (inl h) = elim (Bool-cases (ltb dest src)) [
  | inl e ↦ inr (inl (ground (arith, e)))
  | inr e ↦ inl (ground (arith, e))
]

-- With numbers for the source, the destination and the length, both addresses of whole words, and
-- ranges that do not reach 2 ^ 32: memcpy copies the words that cover the length, unless the
-- destination begins inside the range of the source, behind its start; no other word changes.
pub cmd_memcpy-Copied :
    (argv : List (List ℕ)) (src dest len n : ℕ) (m : Memory)
    → length argv ≡ 4
    → number argv 1 ≡ ok src
    → number argv 2 ≡ ok dest
    → number argv 3 ≡ ok len
    → src % 4 ≡ 0
    → dest % 4 ≡ 0
    → n ≡ (len + 3) / 4
    → dest + 4 * n < 2 ^ 32
    → src + 4 * n < 2 ^ 32
    → (dest ≤ src) ⊎ (src + 4 * n ≤ dest)
    → IsByteMemory m
    → (m' : Memory) × (cmd_memcpy argv m ≡ ok m') × Copied n dest src m m'
unfolding cmd_memcpy
cmd_memcpy-Copied argv src dest len n m four is_src is_dest is_len align_s align_d words rd rs
      ordered bytes =
    let enough : ltb (length argv) 4 ≡ false = ground arith in
    let rounded : (if not (len % 4 == 0) then len / 4 + 1 else len / 4) ≡ n = ground arith in
    let aligned_s : src % 4 == 0 ≡ true = ground arith in
    let aligned_d : dest % 4 == 0 ≡ true = ground arith in
    (
      my_mem_cpy dest src n m,
      rw (enough, is_src, is_dest, is_len, aligned_s, aligned_d, rounded) refl,
      my_mem_cpy-Copied n dest src m bytes rd rs (in_order n dest src align_s align_d ordered),
    )
