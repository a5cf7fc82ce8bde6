-- ===== src/Text/Laws.antt =====
-- What the string functions compute, in terms of the characters before the NUL.
use gen_blob.Base.{
  ℕ, zero, suc, ◌+◌, ◌-◌, ◌≤◌, ◌<◌, Bool, true, false, List, [], ◌∷◌, ◌++◌, none, some, ◌≡◌, ◌↔◌,
  inl, inr, refl, ap, arith, ◌==◌, Bool-cases, ℤ, pos, sub_ℕ, length, take, drop, IsBytes, u8,
  store, store_in_range,
}
use gen_blob.Text.{
  IsString, nul, char, strlen, strncmp, strcmp, strcpy, strncpy, strlcpy, string_equal, copy_str,
  signed_char,
}

pub strlen-length : {s xs : List ℕ} → IsString s xs → strlen s ≡ some (length xs)
unfolding strlen
strlen-length (nul e) = ground arith
strlen-length (char ne t) = ground (arith, strlen-length t)

sub_ℕ-zero : (a b : ℕ) → sub_ℕ a b ≡ pos 0 → a ≡ b
sub_ℕ-zero a zero h = ground arith
sub_ℕ-zero zero (suc b) h = cc
sub_ℕ-zero (suc a) (suc b) h = ap suc (sub_ℕ-zero a b h)

-- `strncmp` of two strings returns, and it is 0 exactly when they agree in their first `n`
-- characters.
pub strncmp-zero :
    {s t xs ys : List ℕ} (n : ℕ)
    → IsString s xs
    → IsString t ys
    → (d : ℤ) × (strncmp s t n ≡ some d) × ((d ≡ pos 0) ↔ (take n xs ≡ take n ys))
unfolding strncmp
strncmp-zero zero p q = (pos 0, refl, ((λ _. refl), λ _. refl))
strncmp-zero (suc n) (nul e) (nul f) = (pos 0, ground arith, ground arith)
strncmp-zero (suc n) (nul {c} e) (char {c = d} ne q) =
    (sub_ℕ c d, ground arith, ground (arith, sub_ℕ-zero c d))
strncmp-zero (suc n) (char {c} ne p) (nul {c = d} f) =
    (sub_ℕ c d, ground arith, ground (arith, sub_ℕ-zero c d))
strncmp-zero (suc n) (char {c} ne p) (char {c = d} nf q) =
    let (r, e, agree) = strncmp-zero n p q in
    elim (Bool-cases (c == d)) [
      | inl same ↦ (r, ground arith, ground arith)
      | inr other ↦ (sub_ℕ c d, ground arith, ground (arith, sub_ℕ-zero c d))
    ]

-- `strcmp` of two strings returns, and it is 0 exactly when they are equal, for characters of
-- eight bits.
pub strcmp-zero :
    {s t xs ys : List ℕ}
    → IsString s xs
    → IsString t ys
    → IsBytes s
    → IsBytes t
    → (d : ℤ) × (strcmp s t ≡ some d) × ((d ≡ pos 0) ↔ (xs ≡ ys))
unfolding strcmp
strcmp-zero (nul e) (nul f) hs ht = (pos 0, ground arith, ground arith)
strcmp-zero (nul {c} e) (char {c = d} ne q) hs ht =
    (signed_char (u8 (c + 256 - d)), ground arith, ground arith)
strcmp-zero (char {c} ne p) (nul {c = d} f) hs ht =
    (signed_char (u8 (c + 256 - d)), ground arith, ground arith)
strcmp-zero (char {c} ne p) (char {c = d} nf q) hs ht =
    let (r, e, agree) = strcmp-zero p q hs.1 ht.1 in
    elim (Bool-cases (c == d)) [
      | inl same ↦ (r, ground arith, ground arith)
      | inr other ↦ (signed_char (u8 (c + 256 - d)), ground arith, ground arith)
    ]

-- `util_string_equal` of two strings returns, and returns true exactly when they are equal.
pub string_equal_iff :
    {s t xs ys : List ℕ}
    → IsString s xs
    → IsString t ys
    → (b : Bool) × (string_equal s t ≡ some b) × ((b ≡ true) ↔ (xs ≡ ys))
unfolding string_equal
string_equal_iff (nul e) (nul f) = (true, ground arith, ground arith)
string_equal_iff (nul e) (char ne q) = (false, ground arith, ground arith)
string_equal_iff (char ne p) (nul f) = (false, ground arith, ground arith)
string_equal_iff (char {c} {s} {xs} ne p) (char {c = c'} {s = t} {xs = ys} nf q) =
    let (b, e, agree) = string_equal_iff p q in
    elim (Bool-cases (c == c')) [
      | inl same ↦ (b, ground arith, ground arith)
      | inr other ↦ (false, ground arith, ground arith)
    ]

-- `strncpy` into an array with room for `n` characters: it copies at most `n`, pads with nothing
-- and, unlike the C library's, returns the place behind the last byte written.
pub strncpy_short :
    {src xs : List ℕ} (dest : List ℕ) (n : ℕ)
    → IsString src xs
    → length xs < n
    → n ≤ length dest
    → strncpy dest src n ≡ some (xs ++ 0 ∷ drop (suc (length xs)) dest, suc (length xs))
unfolding strncpy
strncpy_short dest zero p h room = absurd (omega arith)
strncpy_short [] (suc n) p h room = absurd (omega arith)
strncpy_short (x ∷ dest) (suc n) (nul e) h room = ground arith
strncpy_short (x ∷ dest) (suc n) (char {c} ne p) h room = ground (arith, strncpy_short dest n p)

pub strncpy_long :
    {src xs : List ℕ} (dest : List ℕ) (n : ℕ)
    → IsString src xs
    → n ≤ length xs
    → n ≤ length dest
    → strncpy dest src n ≡ some (take n xs ++ drop n dest, n)
unfolding strncpy
strncpy_long dest zero p h room = refl
strncpy_long [] (suc n) p h room = absurd (omega arith)
strncpy_long (x ∷ dest) (suc n) (nul e) h room = absurd (omega arith)
strncpy_long (x ∷ dest) (suc n) (char {c} ne p) h room = ground (arith, strncpy_long dest n p)

-- What `strncpy` leaves, once its last place is cleared.
strncpy_cleared :
    {src xs : List ℕ} (dest : List ℕ) (n : ℕ)
    → IsString src xs
    → n < length dest
    → (d : List ℕ) × (k : ℕ) × (d' : List ℕ) × (strncpy dest src (suc n) ≡ some (d, k))
      × (store d n 0 ≡ some d')
      × IsString d' (take n xs)
      × (drop (suc n) d' ≡ drop (suc n) dest)
unfolding strncpy store
strncpy_cleared [] n p room = absurd (omega arith)
strncpy_cleared (x ∷ dest) zero (nul e) room =
    (0 ∷ dest, 1, 0 ∷ dest, ground arith, refl, nul refl, refl)
strncpy_cleared (x ∷ dest) zero (char {c} ne p) room =
    (c ∷ dest, 1, 0 ∷ dest, ground arith, refl, nul refl, refl)
strncpy_cleared (x ∷ dest) (suc n) (nul e) room =
    let (d, stored, same, before, at, behind) = store_in_range dest n 0 (omega arith) in
    (0 ∷ dest, 1, 0 ∷ d, ground arith, ground arith, nul refl, behind)
strncpy_cleared (x ∷ dest) (suc n) (char {c} ne p) room =
    let (d, k, d', copied, stored, string, rest) = strncpy_cleared dest n p (omega arith) in
    (c ∷ d, suc k, c ∷ d', ground arith, ground arith, char ne string, rest)

-- `strlcpy` with a size `n` of at least 1, into an array of at least `n`: the destination then
-- holds the first `n - 1` characters of the source as a string, and from place `n` on it is as it
-- was.
pub strlcpy-IsString :
    {src xs : List ℕ} (dest : List ℕ) (n : ℕ)
    → IsString src xs
    → 0 < n
    → n ≤ length dest
    → (d : List ℕ) × (strlcpy dest src n ≡ some d)
      × IsString d (take (n - 1) xs)
      × (drop n d ≡ drop n dest)
unfolding strlcpy
strlcpy-IsString dest zero p one room = absurd (omega arith)
strlcpy-IsString dest (suc n) p one room =
    let (d, k, d', copied, stored, string, rest) = strncpy_cleared dest n p room in
    let less : suc n - 1 ≡ n = omega arith in (d', ground arith, rw less string, rest)

-- `util_copy_str` and `strcpy` copy the string with its NUL where there is room for it, and leave
-- the rest alone; `strcpy` also counts the characters.
pub copy_str-strcpy :
    {src xs : List ℕ} (dest : List ℕ)
    → IsString src xs
    → length xs < length dest
    → (copy_str dest src ≡ some (xs ++ 0 ∷ drop (suc (length xs)) dest))
      × (strcpy dest src ≡ some (xs ++ 0 ∷ drop (suc (length xs)) dest, length xs))
unfolding copy_str strcpy
copy_str-strcpy [] p room = absurd (omega arith)
copy_str-strcpy (x ∷ dest) (nul e) room = (ground arith, ground arith)
copy_str-strcpy (x ∷ dest) (char ne p) room =
    let (copied, counted) = copy_str-strcpy dest p (omega arith) in (ground arith, ground arith)

-- With no room for the NUL, `util_copy_str` writes past the destination.
pub copy_str_overflow :
    {src xs : List ℕ} (dest : List ℕ)
    → IsString src xs
    → length dest ≤ length xs
    → copy_str dest src ≡ none
unfolding copy_str
copy_str_overflow [] (nul e) h = refl
copy_str_overflow [] (char ne p) h = refl
copy_str_overflow (x ∷ dest) (nul e) h = absurd (omega arith)
copy_str_overflow (x ∷ dest) (char ne p) h = ground (arith, copy_str_overflow dest p)
