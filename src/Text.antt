-- ===== src/Text.antt =====
-- The string functions of src/lib/strlen.c, strncmp.c and strncpy.c, and those of
-- src/blob/bl_utility.c that walk a string. A pointer into an array is the rest of the array from
-- there on; a char is unsigned, as the ARM compilers have it. A read or write past the array's
-- end is `none`.
pub mod Laws
use gen_blob.Base.{
  ℕ, zero, suc, ◌+◌, ◌-◌, ◌%◌, ◌^◌, Bool, true, false, not, ◌&&◌, List, [], ◌∷◌, Option, none, some,
  ◌≡◌, ◌≢◌, ltb, ◌==◌, if◌then◌else◌, ℤ, pos, neg, sub_ℕ, is_neg, u8, store, ◌>>=◌,
}

-- The array holds a C string: these characters, and then a NUL.
pub data IsString : List ℕ → List ℕ → Type 0 where
  nul : {c : ℕ} {rest : List ℕ} → c ≡ 0 → IsString (c ∷ rest) []
  char : {c : ℕ} {s xs : List ℕ} → c ≢ 0 → IsString s xs → IsString (c ∷ s) (c ∷ xs)

unfoldable pub strlen : List ℕ → Option ℕ
strlen [] = none
strlen (c ∷ s) = if c == 0 then some 0 else (do n ← strlen s; some (suc n))

unfoldable pub strncmp : List ℕ → List ℕ → ℕ → Option ℤ
strncmp s t zero = some (pos 0)
strncmp [] t (suc n) = none
strncmp (a ∷ s) [] (suc n) = none
strncmp (a ∷ s) (b ∷ t) (suc n) =
    if not (a == b) then some (sub_ℕ a b) else if a == 0 then some (pos 0) else strncmp s t n

-- `register signed char __res`: the difference, cut to eight bits and read as signed.
abbrev pub signed_char : ℕ → ℤ
signed_char d = if ltb d 128 then pos d else neg (256 - d)

unfoldable pub strcmp : List ℕ → List ℕ → Option ℤ
strcmp [] t = none
strcmp (a ∷ s) [] = none
strcmp (a ∷ s) (b ∷ t) =
    let res = u8 (a + 256 - b) in
    if not (res == 0) then some (signed_char res) else if a == 0 then some (pos 0) else strcmp s t

-- `strcpy`: the array at `d` afterwards, and the number of characters copied.
unfoldable pub strcpy : List ℕ → List ℕ → Option (List ℕ × ℕ)
strcpy d [] = none
strcpy [] (c ∷ s) = none
strcpy (x ∷ d) (c ∷ s) =
    if c == 0 then some (0 ∷ d, 0) else (do (e, k) ← strcpy d s; some (c ∷ e, suc k))

-- The array at `dest` afterwards, and how far the returned pointer lies behind `dest`.
unfoldable pub strncpy : List ℕ → List ℕ → ℕ → Option (List ℕ × ℕ)
strncpy dest src zero = some (dest, 0)
strncpy [] src (suc n) = none
strncpy (x ∷ dest) [] (suc n) = none
strncpy (x ∷ dest) (c ∷ src) (suc n) =
    if c == 0 then some (0 ∷ dest, 1) else (do (d, k) ← strncpy dest src n; some (c ∷ d, suc k))

unfoldable pub strlcpy : List ℕ → List ℕ → ℕ → Option (List ℕ)
strlcpy dest src n = do (d, _) ← strncpy dest src n; if ltb 0 n then store d (n - 1) 0 else some d

-- `util_string_equal`. Both strings are read before the first test, so the short circuit shows in
-- no result.
unfoldable pub string_equal : List ℕ → List ℕ → Option Bool
string_equal [] t = none
string_equal (a ∷ s) [] = none
string_equal (a ∷ s) (b ∷ t) =
    if not (a == 0) && (not (b == 0) && a == b) then string_equal s t else some (a == b)

-- `util_copy_str`: the array at `dest` afterwards.
unfoldable pub copy_str : List ℕ → List ℕ → Option (List ℕ)
copy_str dest [] = none
copy_str [] (c ∷ src) = none
copy_str (x ∷ dest) (c ∷ src) =
    if c == 0 then some (0 ∷ dest) else (do d ← copy_str dest src; some (c ∷ d))
