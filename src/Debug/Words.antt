-- ===== src/Debug/Words.antt =====
-- Words, halfwords and bytes of memory that the commands of src/blob/debug.c write, as they read.
use gen_blob.Base.{
  ℕ, zero, suc, ◌+◌, ◌/◌, ◌%◌, ◌^◌, ◌≤◌, ◌<◌, ◌≡◌, ap, List, [], ◌∷◌, arith, u32, ◌⊎◌, inl, inr,
}
use gen_blob.Loader.Memory.{Memory, byte_at, word_at, write_bytes, read_bytes}
use gen_blob.Loader.Memory.ReadBack.{read_bytes-write_bytes, write_bytes_outside}
use gen_blob.Debug.{Width, byte, half, word, write_word, write_width, read_width}

abbrev element : List ℕ → ℕ → ℕ
element [] i = 0
element (x ∷ xs) zero = x
element (x ∷ xs) (suc i) = element xs i

-- The values of a width.
abbrev pub limit : Width → ℕ
limit byte = 2 ^ 8
limit half = 2 ^ 16
limit word = 2 ^ 32

-- What was written with a width is read with it, cut to the width.
pub read_width-write_width :
    (w : Width) (m : Memory) (a v : ℕ)
    → v < 2 ^ 32
    → read_width w (write_width w m a v) a ≡ v % limit w
unfolding read_width write_width write_word read_bytes
read_width-write_width byte m a v h =
    ap (λ l. element l 0) (read_bytes-write_bytes m a (v % 2 ^ 8 ∷ []) (omega arith))
read_width-write_width half m a v h =
    let bytes : List ℕ = v % 2 ^ 8 ∷ v / 2 ^ 8 % 2 ^ 8 ∷ [] in
    let same = read_bytes-write_bytes m a bytes (omega arith) in
    let b0 : byte_at (write_bytes m a bytes) a ≡ v % 2 ^ 8 = ap (λ l. element l 0) same in
    let b1 : byte_at (write_bytes m a bytes) (a + 1) ≡ v / 2 ^ 8 % 2 ^ 8 =
      ap (λ l. element l 1) same in
    omega arith
read_width-write_width word m a v h =
    let bytes : List ℕ =
      v % 2 ^ 8 ∷ v / 2 ^ 8 % 2 ^ 8 ∷ v / 2 ^ 16 % 2 ^ 8 ∷ v / 2 ^ 24 % 2 ^ 8 ∷ [] in
    let same = read_bytes-write_bytes m a bytes (omega arith) in
    let m' : Memory = write_bytes m a bytes in
    let two : a + 1 + 1 ≡ a + 2 = omega arith in
    let three : a + 1 + 1 + 1 ≡ a + 3 = omega arith in
    let b0 : byte_at m' a ≡ v % 2 ^ 8 = ap (λ l. element l 0) same in
    let b1 : byte_at m' (a + 1) ≡ v / 2 ^ 8 % 2 ^ 8 = ap (λ l. element l 1) same in
    let b2 : byte_at m' (a + 1 + 1) ≡ v / 2 ^ 16 % 2 ^ 8 = ap (λ l. element l 2) same in
    let b3 : byte_at m' (a + 1 + 1 + 1) ≡ v / 2 ^ 24 % 2 ^ 8 = ap (λ l. element l 3) same in
    let b2' : byte_at m' (a + 2) ≡ v / 2 ^ 16 % 2 ^ 8 = rw two at b2 in
    let b3' : byte_at m' (a + 3) ≡ v / 2 ^ 24 % 2 ^ 8 = rw three at b3 in omega arith

-- A byte outside the four of a word is left alone.
write_word_outside :
    (m : Memory) (a v x : ℕ)
    → a + 4 ≤ 2 ^ 32
    → x < 2 ^ 32
    → (x < a) ⊎ (a + 4 ≤ x)
    → write_word m a v x ≡ m x
unfolding write_word
write_word_outside m a v x room small (inl before) =
    write_bytes_outside m a x _ (λ i l e. omega arith)
write_word_outside m a v x room small (inr behind) =
    write_bytes_outside m a x _ (λ i l e. omega arith)

-- So is a word that does not overlap it.
pub word_at-write_word_other :
    (m : Memory) (a b v : ℕ)
    → a + 4 ≤ 2 ^ 32
    → b + 4 ≤ 2 ^ 32
    → (b + 4 ≤ a) ⊎ (a + 4 ≤ b)
    → word_at (write_word m a v) b ≡ word_at m b
word_at-write_word_other m a b v ra rb (inl before) =
    let at = λ (i : ℕ) (l : i < 4).
      write_word_outside m a v (u32 (b + i)) ra (omega arith) (inl (omega arith)) in
    let first : write_word m a v (u32 b) ≡ m (u32 b) =
      write_word_outside m a v (u32 b) ra (omega arith) (inl (omega arith)) in
    omega (arith, first, at 1 (omega arith), at 2 (omega arith), at 3 (omega arith))
word_at-write_word_other m a b v ra rb (inr behind) =
    let at = λ (i : ℕ) (l : i < 4).
      write_word_outside m a v (u32 (b + i)) ra (omega arith) (inr (omega arith)) in
    let first : write_word m a v (u32 b) ≡ m (u32 b) =
      write_word_outside m a v (u32 b) ra (omega arith) (inr (omega arith)) in
    omega (arith, first, at 1 (omega arith), at 2 (omega arith), at 3 (omega arith))
