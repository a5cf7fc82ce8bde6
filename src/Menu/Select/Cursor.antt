-- ===== src/Menu/Select/Cursor.antt =====
-- Where the cursor of src/blob/boot_modes.c stands, and that the chosen entry is the one under it.
use native.Mathlib.Nat.{mod-eq_of_lt, add-mod_right, add-zero}
use gen_blob.Base.{
  ℕ, zero, suc, ◌+◌, ◌-◌, ◌%◌, ◌<◌, ◌≡◌, ◌∙◌, sym, ap, true, false, ◌||◌, List, [], ◌∷◌, ◌++◌,
  Option, some, refl, arith, ◌==◌, if◌then◌else◌, pos, length, get_elem?, Bool-cases, inl, inr,
}
use gen_blob.Menu.Entries.{Entry}
use gen_blob.Menu.Select.{show_loop, is_enter, is_up, is_down, move, key_loop, boot_menu}

-- The entries have the numbers from `i` on.
abbrev pub Numbered : ℕ → List Entry → Type 0
Numbered i [] = Unit
Numbered i (e ∷ entries) = (e.id ≡ i) × Numbered (i + 1) entries

show_loop_passed :
    (i curr : ℕ) (entries : List Entry) (go : Option Entry)
    → Numbered i entries
    → curr < i
    → show_loop (length entries) curr entries go ≡ go
unfolding show_loop
show_loop_passed i curr [] go numbered h = refl
show_loop_passed i curr (e ∷ entries) go (id, numbered) h =
    let other : curr == e.id ≡ false = ground (arith, id) in
    rw (other, show_loop) (show_loop_passed (i + 1) curr entries go numbered (omega arith))

show_loop-get_elem? :
    (i k : ℕ) (entries : List Entry) (go : Option Entry)
    → Numbered i entries
    → k < length entries
    → show_loop (length entries) (i + k) entries go ≡ get_elem? entries k
unfolding show_loop
show_loop-get_elem? i k [] go numbered h = absurd (omega arith)
show_loop-get_elem? i zero (e ∷ entries) go (id, numbered) h =
    let same : i + 0 == e.id ≡ true = ground (arith, id) in
    rw (same, show_loop) (show_loop_passed (i + 1) (i + 0) entries (some e) numbered (omega arith))
show_loop-get_elem? i (suc k) (e ∷ entries) go (id, numbered) h =
    let other : i + suc k == e.id ≡ false = ground (arith, id) in
    let step : i + suc k ≡ i + 1 + k = omega arith in
    rw (other, show_loop)
      (ap (λ c. show_loop (length entries) c entries go) step
        ∙ show_loop-get_elem? (i + 1) k entries go numbered (omega arith))

show_loop_start :
    (k : ℕ) (entries : List Entry) (go : Option Entry)
    → Numbered 0 entries
    → k < length entries
    → show_loop (length entries) k entries go ≡ get_elem? entries k
show_loop_start k entries go numbered h =
    let e : 0 + k ≡ k = omega arith in
    ap (λ c. show_loop (length entries) c entries go) (sym e)
    ∙ show_loop-get_elem? 0 k entries go numbered h

-- No key of the list is enter.
abbrev pub NoEnter : List ℕ → Type 0
NoEnter [] = Unit
NoEnter (key ∷ keys) = (is_enter key ≡ false) × NoEnter keys

-- How far keys move the cursor down, where a step up is one of `num - 1` down.
abbrev pub steps : ℕ → List ℕ → ℕ
steps num [] = 0
steps num (key ∷ keys) =
    (if is_up key then num - 1 else if is_down key then 1 else 0) + steps num keys

module _ (num : ℕ) where
  wrap_mod : (a b : ℕ) → b ≡ a + num → a % num ≡ b % num
  wrap_mod a b e = rw e (sym (add-mod_right a num))

  move_mod :
      (key curr more : ℕ)
      → curr < num
      → (move num key curr + more) % num
        ≡ (curr + ((if is_up key then num - 1 else if is_down key then 1 else 0) + more)) % num
  unfolding move
  move_mod key curr more h = elim (Bool-cases (is_up key)) [
    | inl up ↦ elim (Bool-cases (curr == 0)) [
      | inl first ↦
          let e : curr ≡ 0 = ground (arith, first) in
          let e' : num - 1 + more ≡ curr + (num - 1 + more) = omega arith in
          rw (up, first) (ap (λ k. k % num) e')
      | inr later ↦
          let e : 0 < curr = ground (arith, later) in
          rw (up, later) (wrap_mod (curr - 1 + more) (curr + (num - 1 + more)) (omega arith))
    ]
    | inr not_up ↦ elim (Bool-cases (is_down key)) [
      | inl down ↦ elim (Bool-cases (curr + 1 == num)) [
        | inl last ↦
            let e : curr + 1 ≡ num = ground (arith, last) in
            rw (not_up, down, last) (wrap_mod (0 + more) (curr + (1 + more)) (omega arith))
        | inr before ↦
            let e : curr + 1 + more ≡ curr + (1 + more) = omega arith in
            rw (not_up, down, before) (ap (λ k. k % num) e)
      ]
      | inr neither ↦
          let e : curr + more ≡ curr + (0 + more) = omega arith in
          rw (not_up, neither) (ap (λ k. k % num) e)
    ]
  ]

  move-lt : (key curr : ℕ) → curr < num → move num key curr < num
  unfolding move
  move-lt key curr h = ground arith

  move_stays : (key curr : ℕ) → (is_up key || is_down key) ≡ false → move num key curr ≡ curr
  unfolding move
  move_stays key curr h = ground arith

  key_loop-steps :
      (entries : List Entry) (moves rest : List ℕ) (key curr : ℕ)
      → num ≡ length entries
      → Numbered 0 entries
      → curr < num
      → NoEnter moves
      → is_enter key ≡ true
      → key_loop num entries (moves ++ key ∷ rest) curr (get_elem? entries curr)
        ≡ some ((curr + steps num moves) % num, get_elem? entries ((curr + steps num moves) % num))
  unfolding key_loop
  key_loop-steps entries [] rest key curr n numbered h clear enter =
      let e : (curr + 0) % num ≡ curr = rw add-zero (mod-eq_of_lt h) in rw (enter, e) refl
  key_loop-steps entries (k ∷ moves) rest key curr n numbered h (first, clear) enter =
      let shown : (if is_up k || is_down k
            then show_loop num (move num k curr) entries (get_elem? entries curr)
            else get_elem? entries curr)
          ≡ get_elem? entries (move num k curr) =
        elim (Bool-cases (is_up k || is_down k)) [
          | inl moved ↦
              rw (moved, n)
                (show_loop_start (move (length entries) k curr) entries (get_elem? entries curr)
                  numbered (let moved_lt = move-lt k curr h in rw (← n) moved_lt))
          | inr stays ↦ rw (stays, move_stays k curr stays) refl
        ] in
      let rest_runs =
        key_loop-steps entries moves rest key (move num k curr) n numbered (move-lt k curr h) clear
          enter in
      rw (first, shown) (rest_runs ∙ rw (move_mod k curr (steps num moves) h) refl)

-- For entries numbered from 0, boot_menu waits for an enter key, and then returns 0 with the cursor
-- as far down from the first entry as the keys before it moved it, a step up being one of
-- `num - 1` down, modulo the number of entries; the chosen entry is the one under the cursor.
pub boot_menu-steps :
    (entries : List Entry) (moves rest : List ℕ) (key : ℕ) (go : Option Entry)
    → 0 < length entries
    → Numbered 0 entries
    → NoEnter moves
    → is_enter key ≡ true
    → boot_menu (length entries) entries (moves ++ key ∷ rest) go
      ≡ some (
        pos 0,
        steps (length entries) moves % length entries,
        get_elem? entries (steps (length entries) moves % length entries),
      )
unfolding boot_menu
boot_menu-steps entries moves rest key go some_entry numbered clear enter =
    let non_empty : length entries == 0 ≡ false = ground arith in
    let first = show_loop_start 0 entries go numbered some_entry in
    let e : 0 + steps (length entries) moves ≡ steps (length entries) moves = omega arith in
    rw (non_empty, first)
      (rw
        (key_loop-steps (length entries) entries moves rest key 0 refl numbered some_entry clear
          enter)
        (rw e refl))
