-- ===== src/Menu/Overflow.antt =====
-- A first word that is too long for the array of parse_conf_file in src/blob/menu.c.
use gen_blob.Base.{
  ℕ, zero, suc, ◌+◌, ◌≤◌, ◌<◌, ◌≡◌, List, [], ◌∷◌, ◌++◌, none, refl, arith, ltb, length, store,
  store-append, append_assoc, length-append, Bool-cases, inl, inr,
}
use gen_blob.Menu.Entries.{word_loop, get_cmd_word, on_line, Conf}
use gen_blob.Menu.Entries.Word.{IsWord}

store_behind : (xs : List ℕ) (i v : ℕ) → length xs ≤ i → store xs i v ≡ none
unfolding store
store_behind [] i v h = refl
store_behind (x ∷ xs) zero v h = absurd (omega arith)
store_behind (x ∷ xs) (suc i) v h = rw (store_behind xs i v (omega arith)) refl

word_loop_overflow :
    (read w tail rest : List ℕ)
    → IsWord w
    → 0 < length tail
    → length read + length tail ≡ 10
    → length tail ≤ length w
    → word_loop (w ++ rest) (read ++ tail) (length read) ≡ none
unfolding word_loop
word_loop_overflow read w [] rest word some_room ten long = absurd (omega arith)
word_loop_overflow read [] (x ∷ tail) rest word some_room ten long = absurd (omega arith)
word_loop_overflow read (c ∷ w) (x ∷ tail) rest (first, word) some_room ten long =
    let grown : length read + 1 ≡ length (read ++ c ∷ []) =
      omega (arith, length-append read (c ∷ [])) in
    let joined : (read ++ c ∷ []) ++ tail ≡ read ++ c ∷ tail = append_assoc read (c ∷ []) tail in
    let whole : length ((read ++ c ∷ []) ++ tail) ≡ 10 =
      omega (arith, length-append (read ++ c ∷ []) tail) in
    elim (Bool-cases (ltb 9 (length (read ++ c ∷ [])))) [
      | inl full ↦
          rw (first, store-append read x tail c, grown, full, ← joined)
            (store_behind ((read ++ c ∷ []) ++ tail) (length (read ++ c ∷ [])) 0
              (ground (arith, full, whole, grown)))
      | inr room ↦
          rw (first, store-append read x tail c, grown, room, ← joined)
            (word_loop_overflow (read ++ c ∷ []) w tail rest word (ground (arith, room, ten, grown))
              (omega arith) (omega arith))
    ]

-- A line whose first word has 10 characters or more writes behind the array of 10 bytes.
pub on_line_overflow :
    (w rest : List ℕ) (c : Conf)
    → IsWord w
    → 10 ≤ length w
    → length c.cmd ≡ 10
    → on_line (w ++ rest) c ≡ none
unfolding on_line get_cmd_word
on_line_overflow w rest c word long ten =
    rw (word_loop_overflow [] w c.cmd rest word (omega arith) (omega arith) (omega arith)) refl
