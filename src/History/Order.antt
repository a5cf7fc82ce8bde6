-- ===== src/History/Order.antt =====
-- The lines are recalled in the reverse of the order of the pushes.
use gen_blob.Base.{
  ℕ, suc, ◌+◌, ◌-◌, ◌%◌, ◌≤◌, ◌<◌, true, false, List, some, ◌≡◌, ◌≢◌, ◌⊎◌, refl, sym, ap, ◌∙◌,
  arith, ltb, ◌==◌, pos, length, get_elem?, take, Bool-cases, inl, inr, ne→==,
}
use gen_blob.Text.{IsString}
use gen_blob.History.{History, cmdhist_push, cmdhist_reset, cmdhist_next, cmdhist_prev}
use gen_blob.History.Recall.{WellFormed, pushed, cmdhist_push-WellFormed, first_char}

-- Place `w` is the one that cmdhist_next goes to from `r`.
Before : ℕ → ℕ → ℕ → Type 0
Before w r entries = (0 < entries) × ((r ≡ suc w) ⊎ ((r ≡ 0) × (entries ≡ 32) × (w ≡ 31)))

wraps : (w : ℕ) → w < 32 → ((w + 1) % 32 ≡ suc w) ⊎ (((w + 1) % 32 ≡ 0) × (w ≡ 31))
wraps w h = ground arith

Before-pushed :
    (slots : List (List ℕ)) (h : History)
    → WellFormed h
    → Before h.write ((h.write + 1) % 32) (pushed slots h).entries
unfolding Before
Before-pushed slots h ok =
    let few = ok.few in
    let write_in = ok.write_in in
    let filling = ok.filling in
    let step : (e : ℕ)
        → (h.write ≡ 31 → e ≡ 32)
        → ((h.write + 1) % 32 ≡ suc h.write)
          ⊎ (((h.write + 1) % 32 ≡ 0) × (e ≡ 32) × (h.write ≡ 31)) =
      λ e full. elim (wraps h.write write_in) [
        | inl up ↦ inl up
        | inr (back, last) ↦ inr (back, full last, last)
      ] in
    elim (Bool-cases (ltb h.entries 32)) [
      | inl more ↦
          let below : h.entries < 32 = ground arith in
          let at : h.write ≡ h.entries = filling below in
          rw more (omega arith, step (h.entries + 1) (λ wrapped. omega arith))
      | inr full ↦
          let last : 32 ≤ h.entries = ground arith in
          rw full (omega arith, step h.entries (λ wrapped. omega arith))
    ]

Before-later :
    (slots : List (List ℕ)) (h : History) (w r : ℕ)
    → h.entries ≤ 32
    → Before w r h.entries
    → Before w r (pushed slots h).entries
unfolding Before
Before-later slots h w r few (some_entry, inl up) = (ground arith, inl up)
Before-later slots h w r few (some_entry, inr (back, full, last)) =
    (ground arith, inr (back, ground arith, last))

next-shows :
    (h : History) (w : ℕ) {line : List ℕ} {c : ℕ}
    → Before w h.read h.entries
    → get_elem? h.slots w ≡ some line
    → get_elem? line 0 ≡ some c
    → (c == 0) ≡ false
    → cmdhist_next true h ≡ some ((pos 0, some line), record h { read = w })
unfolding Before cmdhist_next
next-shows h w {line} {c} (some_entry, inl at) there first shown =
    let has_entry = ne→== h.entries 0 (λ e. omega arith) in
    let not_first = ne→== h.read 0 (λ e. omega arith) in
    let place : h.read - 1 ≡ w = omega arith in
    rw (has_entry, not_first, place, there, first, shown) refl
next-shows h w {line} {c} (some_entry, inr (at, full, last)) there first shown =
    let there' : get_elem? h.slots 31 ≡ some line = ap (get_elem? h.slots) (sym last) ∙ there in
    let has_entry = ne→== h.entries 0 (λ e. omega arith) in
    let first_place : (h.read == 0) ≡ true = ground arith in
    let all : (h.entries == 32) ≡ true = ground arith in
    rw (has_entry, first_place, all, there', first, shown)
      (ap (λ k. some ((pos 0, some line), record h { read = k })) (sym last))

prev-shows :
    (h : History) (w : ℕ) {line : List ℕ} {c : ℕ}
    → 0 < h.entries
    → (h.read + 1) % 32 ≡ w
    → w ≢ h.write
    → get_elem? h.slots w ≡ some line
    → get_elem? line 0 ≡ some c
    → (c == 0) ≡ false
    → cmdhist_prev true h ≡ some ((pos 0, some line), record h { read = w })
unfolding cmdhist_prev
prev-shows h w some_entry at other there first shown =
    let has_entry = ne→== h.entries 0 (λ e. omega arith) in
    let not_end = ne→== w h.write other in rw (has_entry, at, not_end, there, first, shown) refl

-- Two lines of 1 to 128 characters are pushed and the read pointer is reset: cmdhist_next answers
-- with the second line, then with the first, and cmdhist_prev then with the second again, each cut
-- to 127 characters.
pub cmdhist_next-cmdhist_push :
    {cmd cmd' xs ys : List ℕ} (h : History)
    → WellFormed h
    → IsString cmd xs
    → IsString cmd' ys
    → (0 < length xs) × (length xs ≤ 128)
    → (0 < length ys) × (length ys ≤ 128)
    → (h1 : History) × (h2 : History) × (line : List ℕ) × (line' : List ℕ) × (cmdhist_push
          (some cmd)
          h
        ≡ some (pos 0, h1))
      × (cmdhist_push (some cmd') h1 ≡ some (pos 0, h2))
      × WellFormed h2
      × (cmdhist_next true (cmdhist_reset h2).1
          ≡ some ((pos 0, some line'), record h2 { read = h1.write }))
      × (cmdhist_next true (record h2 { read = h1.write })
          ≡ some ((pos 0, some line), record h2 { read = h.write }))
      × (cmdhist_prev true (record h2 { read = h.write })
          ≡ some ((pos 0, some line'), record h2 { read = h1.write }))
      × IsString line (take 127 xs)
      × IsString line' (take 127 ys)
unfolding cmdhist_reset Before
cmdhist_next-cmdhist_push {xs = xs} {ys = ys} h ok p q (some_x, fits_x) (some_y, fits_y) =
    let (slots, line, push1, ok1, at1, is_line, others1) =
      cmdhist_push-WellFormed h ok p some_x fits_x in
    let h1 = pushed slots h in
    let (slots', line', push2, ok2, at2, is_line', others2) =
      cmdhist_push-WellFormed h1 ok1 q some_y fits_y in
    let h2 = pushed slots' h1 in
    let (c, first, shown) = first_char xs 126 is_line some_x in
    let (c', first', shown') = first_char ys 126 is_line' some_y in
    let write_in : h.write < 32 = ok.write_in in
    let before2 = Before-pushed slots' h1 ok1 in
    let before : Before h.write h1.write h2.entries =
      Before-later slots' h1 h.write h1.write ok1.few (Before-pushed slots h ok) in
    let at1' : get_elem? slots' h.write ≡ some line =
      others2 h.write
        (λ e. elim (wraps h.write write_in) [ inl up ↦ omega arith | inr back ↦ omega arith ])
      ∙ at1 in
    (
      h1,
      h2,
      line,
      line',
      push1,
      push2,
      ok2,
      next-shows (cmdhist_reset h2).1 h1.write before2 at2 first' shown',
      next-shows (record h2 { read = h1.write }) h.write before at1' first shown,
      prev-shows (record h2 { read = h.write }) h1.write before.0 refl
          (λ e. elim (wraps h1.write ok1.write_in) [
            | inl up ↦ omega arith
            | inr back ↦ omega arith
          ])
          at2 first' shown',
      is_line,
      is_line',
    )
