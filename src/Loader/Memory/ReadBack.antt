-- ===== src/Loader/Memory/ReadBack.antt =====
-- Bytes that were written to memory are read back.
use gen_blob.Base.{
  ℕ, ◌+◌, ◌^◌, ◌≤◌, ◌<◌, List, [], ◌∷◌, ◌≡◌, ◌≢◌, refl, ap, ap₂, ◌∙◌, arith, ◌==◌, if◌then◌else◌,
  u32, length, ==_self, ne→==,
}
use gen_blob.Loader.Memory.{Memory, write_bytes, read_bytes}

-- A write leaves the other addresses alone.
pub write_bytes_outside :
    (m : Memory) (a x : ℕ) (bs : List ℕ)
    → ((i : ℕ) → i < length bs → u32 (a + i) ≢ x)
    → write_bytes m a bs x ≡ m x
unfolding write_bytes
write_bytes_outside m a x [] h = refl
write_bytes_outside m a x (b ∷ bs) h =
    let first : x ≢ u32 a = λ e. h 0 (omega arith) (omega arith) in
    let kept : (if x == u32 a then b else m x) ≡ m x = rw (ne→== x (u32 a) first) refl in
    write_bytes_outside (λ y. if y == u32 a then b else m y) (a + 1) x bs
      (λ i l e. h (i + 1) (omega arith) (omega arith))
    ∙ kept

pub read_bytes-write_bytes :
    (m : Memory) (a : ℕ) (bs : List ℕ)
    → length bs ≤ 2 ^ 32
    → read_bytes (write_bytes m a bs) a (length bs) ≡ bs
unfolding write_bytes read_bytes
read_bytes-write_bytes m a [] h = refl
read_bytes-write_bytes m a (b ∷ bs) h =
    let m' : Memory = λ y. if y == u32 a then b else m y in
    let first : write_bytes m' (a + 1) bs (u32 a) ≡ b =
      write_bytes_outside m' (a + 1) (u32 a) bs (λ i l e. omega arith)
      ∙ ap (λ c. if c then b else m (u32 a)) (==_self (u32 a)) in
    ap₂ (λ c cs. c ∷ cs) first (read_bytes-write_bytes m' (a + 1) bs (omega arith))
