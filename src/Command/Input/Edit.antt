-- ===== src/Command/Input/Edit.antt =====
-- What stands in the buffer of GetCommand behind the keys of a line.
use gen_blob.Base.{
  ℕ, zero, suc, ◌+◌, ◌-◌, ◌<◌, ◌≤◌, true, false, ◌||◌, List, [], ◌∷◌, ◌++◌, some, ◌≡◌, ◌≢◌, ◌⊎◌,
  refl, sym, ap, ap₂, ◌∙◌, subst, arith, leb, ltb, ◌==◌, if◌then◌else◌, pos, store, store_in_range,
  length, take, map, length-append, length-take, take-append-take, Bool-cases, inl, inr,
}
use gen_blob.Command.Input.{key, end_line, read_line, get_command}

abbrev pub drop_last : List ℕ → List ℕ
drop_last line = take (length line - 1) line

-- The line after a key: a backspace takes its last character away.
abbrev pub edit : List ℕ → ℕ → List ℕ
edit line c = if c == 8 then drop_last line else line ++ c ∷ []

abbrev pub edited : List ℕ → List ℕ → List ℕ
edited line [] = line
edited line (c ∷ keys) = edited (edit line c) keys

-- No key is a carriage return or a newline, and the line is always shorter than `n`.
abbrev pub Fits : ℕ → List ℕ → List ℕ → Type 0
Fits n line [] = length line < n
Fits n line (c ∷ keys) = (((c ≢ 13) × (c ≢ 10)) × (length line < n)) × Fits n (edit line c) keys

-- A write behind the line.
store-take :
    (command line : List ℕ) (c : ℕ)
    → take (length line) command ≡ line
    → length line < length command
    → (command' : List ℕ) × (store command (length line) c ≡ some command')
      × (take (suc (length line)) command' ≡ line ++ c ∷ [])
      × (length command' ≡ length command)
store-take command line c t h =
    let (command', stored, same, before, at, behind) = store_in_range command (length line) c h in
    let one : length line + 1 ≡ suc (length line) = omega arith in
    (
      command',
      stored,
      ap (λ n. take n command') (sym one)
          ∙ sym (take-append-take (length line) 1 command')
          ∙ ap₂ (λ a b. a ++ take 1 b) (before ∙ t) at,
      same,
    )

take-take : (n m : ℕ) (xs : List ℕ) → n ≤ m → take n (take m xs) ≡ take n xs
take-take zero m xs h = refl
take-take (suc n) zero xs h = absurd (omega arith)
take-take (suc n) (suc m) [] h = refl
take-take (suc n) (suc m) (x ∷ xs) h = ap (◌∷◌ x) (take-take n m xs (omega arith))

length-drop_last : (line : List ℕ) → length (drop_last line) ≡ length line - 1
length-drop_last line = omega (arith, length-take (length line - 1) line)

-- The keys of a line of which `line` stands in the buffer, and then an end.
read_line-edited :
    (keys line command : List ℕ) (n last : ℕ)
    → (last ≡ 13) ⊎ (last ≡ 10)
    → take (length line) command ≡ line
    → Fits n line keys
    → n ≤ length command
    → (command' : List ℕ) × (read_line
          (map key keys ++ key last ∷ [])
          n
          command
          (length line)
          (length line)
        ≡ some (command', pos (length (edited line keys))))
      × (take (suc (length (edited line keys))) command' ≡ edited line keys ++ 0 ∷ [])
unfolding read_line end_line
read_line-edited [] line command n last e t f room =
    let (command', stored, whole, same) = store-take command line 0 t (omega (arith, f, room)) in
    let more : leb n (length line) ≡ false = ground (arith, f) in
    let stop : last == 13 || last == 10 ≡ true = ground (arith, e) in
    (command', rw (more, stop, stored) refl, whole)
read_line-edited (c ∷ keys) line command n last e t f room =
    let more : leb n (length line) ≡ false = ground (arith, f.0.1) in
    let stop : c == 13 || c == 10 ≡ false = ground (arith, f.0.0) in
    let input = map key keys ++ key last ∷ [] in
    elim (Bool-cases (c == 8)) [
      | inl b ↦
          let same : edit line c ≡ drop_last line = rw b refl in
          let shown : take (length (drop_last line)) command ≡ drop_last line =
            ap (λ k. take k command) (length-drop_last line)
            ∙ sym (take-take (length line - 1) (length line) command (omega arith))
            ∙ ap (take (length line - 1)) t in
          let (command', runs, whole) =
            read_line-edited keys (drop_last line) command n last e shown
              (subst (λ x. Fits n x keys) same f.1) room in
          let back : (if ltb 0 (length line) then length line - 1 else length line)
              ≡ length line - 1 =
            ground arith in
          (
            command',
            rw (more, stop, b, back)
                (subst
                  (λ k.
                    read_line input n command k k
                    ≡ some (command', pos (length (edited (drop_last line) keys))))
                  (length-drop_last line) runs),
            rw b whole,
          )
      | inr b ↦
          let (next, stored, shown, kept) =
            store-take command line c t (omega (arith, f.0.1, room)) in
          let same : edit line c ≡ line ++ c ∷ [] = rw b refl in
          let longer : length (line ++ c ∷ []) ≡ suc (length line) =
            omega (arith, length-append line (c ∷ [])) in
          let (command', runs, whole) =
            read_line-edited keys (line ++ c ∷ []) next n last e
              (ap (λ k. take k next) longer ∙ shown) (subst (λ x. Fits n x keys) same f.1)
              (omega (arith, kept, room)) in
          (
            command',
            rw (more, stop, b, stored)
                (subst
                  (λ k.
                    read_line input n next k k
                    ≡ some (command', pos (length (edited (line ++ c ∷ []) keys))))
                  longer runs),
            rw b whole,
          )
    ]

-- Keys that a carriage return or a newline ends, with the line that they edit always shorter than the
-- buffer less one: get_command returns the length of the line, and the buffer begins with the line and
-- a NUL.
pub get_command-edited :
    (keys command : List ℕ) (len last : ℕ)
    → (last ≡ 13) ⊎ (last ≡ 10)
    → Fits (len - 1) [] keys
    → len ≤ length command
    → (command' : List ℕ) × (get_command (map key keys ++ key last ∷ []) command len
        ≡ some (command', pos (length (edited [] keys))))
      × (take (suc (length (edited [] keys))) command' ≡ edited [] keys ++ 0 ∷ [])
unfolding get_command
get_command-edited keys command len last e f room =
    read_line-edited keys [] command (len - 1) last e refl f (omega arith)
