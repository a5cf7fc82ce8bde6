-- ===== src/History/Recall.antt =====
-- What a push does to the history.
use gen_blob.Base.{
  ℕ, zero, suc, ◌+◌, ◌-◌, ◌%◌, ◌≤◌, ◌<◌, false, List, [], ◌∷◌, some, ◌≡◌, ◌≢◌, refl, ap, ◌∙◌, arith,
  ltb, ◌==◌, if◌then◌else◌, pos, length, get_elem?, store, take, Option-cases, Bool-cases, inl, inr,
  le→ltb, ne→==,
}
use gen_blob.Text.{IsString, char, strncpy, strlcpy}
use gen_blob.Text.Laws.{strlen-length, strlcpy-IsString}
use gen_blob.History.{History, max_hist, cmdhist_push}

-- All lines have their 128 bytes.
abbrev pub Lines : List (List ℕ) → Type 0
Lines [] = Unit
Lines (line ∷ lines) = (length line ≡ 128) × Lines lines

pub record WellFormed (h : History) : Type 0 where
  pub size : length h.slots ≡ 32
  pub lines : Lines h.slots
  pub write_in : h.write < 32
  pub read_in : h.read < 32
  pub few : h.entries ≤ 32
  pub filling : h.entries < 32 → h.write ≡ h.entries

-- A line at a place, and the same place written.
line_at :
    (slots : List (List ℕ)) (i : ℕ)
    → Lines slots
    → i < length slots
    → (line : List ℕ) × (get_elem? slots i ≡ some line) × (length line ≡ 128)
line_at [] i h l = absurd (omega arith)
line_at (x ∷ slots) zero h l = (x, refl, h.0)
line_at (x ∷ slots) (suc i) h l = line_at slots i h.1 (omega arith)

store_line :
    (slots : List (List ℕ)) (i : ℕ) (line : List ℕ)
    → Lines slots
    → i < length slots
    → length line ≡ 128
    → (slots' : List (List ℕ)) × (store slots i line ≡ some slots')
      × Lines slots'
      × (length slots' ≡ length slots)
      × (get_elem? slots' i ≡ some line)
      × ((j : ℕ) → j ≢ i → get_elem? slots' j ≡ get_elem? slots j)
unfolding store
store_line [] i line h l n = absurd (omega arith)
store_line (x ∷ slots) zero line h l n = (
  line ∷ slots,
  refl,
  (n, h.1),
  refl,
  refl,
  λ j. elim j as (λ j. j ≢ 0 → get_elem? (line ∷ slots) j ≡ get_elem? (x ∷ slots) j) [
    | zero ↦ λ ne. absurd (ne refl)
    | suc j ↦ λ ne. refl
  ],
)
store_line (x ∷ slots) (suc i) line h l n =
    let (slots', e, ok, same, at, else_) = store_line slots i line h.1 (omega arith) n in
    (
      x ∷ slots',
      rw e,
      (h.0, ok),
      ap suc same,
      at,
      λ j. elim j as (λ j. j ≢ suc i → get_elem? (x ∷ slots') j ≡ get_elem? (x ∷ slots) j) [
        | zero ↦ λ ne. refl
        | suc j ↦ λ ne. else_ j (λ q. ne (ap suc q))
      ],
    )

pub first_char :
    {line : List ℕ} (xs : List ℕ) (n : ℕ)
    → IsString line (take (suc n) xs)
    → 0 < length xs
    → (c : ℕ) × (get_elem? line 0 ≡ some c) × ((c == 0) ≡ false)
first_char [] n p h = absurd (omega arith)
first_char (x ∷ xs) n (char {c} ne p) h = (c, refl, ground arith)

store-length :
    (xs : List ℕ) (i v : ℕ) {ys : List ℕ} → store xs i v ≡ some ys → length ys ≡ length xs
unfolding store
store-length [] i v h = cc
store-length (x ∷ xs) zero v h = cc
store-length (x ∷ xs) (suc i) v h = elim (Option-cases (store xs i v)) [
  | inl e ↦ ground arith
  | inr (ys, e) ↦ let same = store-length xs i v e in ground arith
]

strncpy-length :
    (dest src : List ℕ) (n : ℕ) {r : List ℕ × ℕ}
    → strncpy dest src n ≡ some r
    → length r.0 ≡ length dest
unfolding strncpy
strncpy-length dest src zero h = cc
strncpy-length [] src (suc n) h = cc
strncpy-length (x ∷ dest) [] (suc n) h = cc
strncpy-length (x ∷ dest) (c ∷ src) (suc n) h = elim (Option-cases (strncpy dest src n)) [
  | inl e ↦ ground arith
  | inr ((d, k), e) ↦ let same = strncpy-length dest src n e in ground arith
]

strlcpy-length :
    (dest src : List ℕ) (n : ℕ) {d : List ℕ} → strlcpy dest src n ≡ some d → length d ≡ length dest
unfolding strlcpy
strlcpy-length dest src n {d} h = elim (Option-cases (strncpy dest src n)) [
  | inl e ↦ ground arith
  | inr ((e, k), copied) ↦
      let same = strncpy-length dest src n copied in
      let cleared : store e (n - 1) 0 ≡ some d → length d ≡ length e = store-length e (n - 1) 0 in
      ground arith
]

-- The history behind a push that left these slots.
abbrev pub pushed : List (List ℕ) → History → History
pushed slots h = record {
  entries = if ltb h.entries max_hist then h.entries + 1 else h.entries;
  read = h.read;
  write = (h.write + 1) % 32;
  slots = slots;
}

pushed-WellFormed :
    (slots : List (List ℕ)) (h : History)
    → WellFormed h
    → length slots ≡ 32
    → Lines slots
    → WellFormed (pushed slots h)
pushed-WellFormed slots h ok size lines =
    let few = ok.few in
    let write_in = ok.write_in in
    let filling = ok.filling in
    elim (Bool-cases (ltb h.entries 32)) [
      | inl more ↦
          let below : h.entries < 32 = ground arith in
          let at : h.write ≡ h.entries = filling below in
          record {
            size = size;
            lines = lines;
            write_in = omega arith;
            read_in = ok.read_in;
            few = rw more (omega arith);
            filling = rw more (λ l. omega arith);
          }
      | inr full ↦
          let last : 32 ≤ h.entries = ground arith in
          record {
            size = size;
            lines = lines;
            write_in = omega arith;
            read_in = ok.read_in;
            few = rw full few;
            filling = rw full (λ l. absurd (omega arith));
          }
    ]

-- A line of 1 to 128 characters is stored in the next slot, cut to 127 characters, and no other
-- slot is changed.
module _ {cmd xs : List ℕ} (h : History) (ok : WellFormed h) (string : IsString cmd xs) where
  pub cmdhist_push-WellFormed :
      0 < length xs
      → length xs ≤ 128
      → (slots : List (List ℕ)) × (line : List ℕ) × (cmdhist_push (some cmd) h
          ≡ some (pos 0, pushed slots h))
        × WellFormed (pushed slots h)
        × (get_elem? slots h.write ≡ some line)
        × IsString line (take 127 xs)
        × ((j : ℕ) → j ≢ h.write → get_elem? slots j ≡ get_elem? h.slots j)
  unfolding cmdhist_push
  cmdhist_push-WellFormed some_chars fits =
      let (old, there, size) =
        line_at h.slots h.write ok.lines (omega (arith, ok.write_in, ok.size)) in
      let (line, copied, is_line, rest) =
        strlcpy-IsString old 128 string (omega arith) (omega arith) in
      let same = strlcpy-length old cmd 128 copied in
      let (slots, stored, lines, count, at, others) =
        store_line h.slots h.write line ok.lines (omega (arith, ok.write_in, ok.size))
          (omega arith) in
      let counted = strlen-length string in
      let short = le→ltb 128 (length xs) fits in
      let not_empty = ne→== (length xs) 0 (λ e. omega arith) in
      (
        slots,
        line,
        rw (counted, short, not_empty, there, copied, stored) refl,
        pushed-WellFormed slots h ok (count ∙ ok.size) lines,
        at,
        is_line,
        others,
      )
