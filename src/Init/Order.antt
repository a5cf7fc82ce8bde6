-- ===== src/Init/Order.antt =====
-- The order in which the registered functions are called.
use gen_blob.Base.{
  ℕ, zero, suc, ◌+◌, ◌≤◌, ◌<◌, false, List, [], ◌∷◌, ◌++◌, ◌≡◌, refl, sym, ap, ◌∙◌, arith, ◌==◌,
  if◌then◌else◌, Bool-cases, inl, inr, append-nil, subst,
}
use gen_blob.Init.{
  InitItem, init_magic, exit_magic, levels, call_funcs, levels_up, levels_down, init_subsystems,
  exit_subsystems,
}

-- Every item has the mark.
abbrev pub Marked : ℕ → List InitItem → Type 0
Marked magic [] = Unit
Marked magic (x ∷ xs) = (x.magic ≡ magic) × Marked magic xs

-- The items of one level, in the order of the list.
abbrev pub at_level : ℕ → List InitItem → List InitItem
at_level l [] = []
at_level l (x ∷ xs) = if x.level == l then x ∷ at_level l xs else at_level l xs

-- The levels never fall, from `lo` on; never rise, from `hi` on.
abbrev pub Ascending : ℕ → List InitItem → Type 0
Ascending lo [] = Unit
Ascending lo (x ∷ xs) = (lo ≤ x.level) × Ascending x.level xs

abbrev pub Descending : ℕ → List InitItem → Type 0
Descending hi [] = Unit
Descending hi (x ∷ xs) = (x.level ≤ hi) × Descending x.level xs

call_funcs-at_level :
    (items : List InitItem) (magic l : ℕ)
    → Marked magic items
    → call_funcs items magic l ≡ at_level l items
unfolding call_funcs
call_funcs-at_level [] magic l h = refl
call_funcs-at_level (x ∷ xs) magic l h = ground (arith, h.0, call_funcs-at_level xs magic l h.1)

at_level-append :
    (l : ℕ) (xs ys : List InitItem) → at_level l (xs ++ ys) ≡ at_level l xs ++ at_level l ys
at_level-append l [] ys = refl
at_level-append l (x ∷ xs) ys = ground (arith, at_level-append l xs ys)

at_level_same : (l : ℕ) (xs : List InitItem) → at_level l (at_level l xs) ≡ at_level l xs
at_level_same l [] = refl
at_level_same l (x ∷ xs) = ground (arith, at_level_same l xs)

at_level_other : (l k : ℕ) (xs : List InitItem) → (k == l) ≡ false → at_level l (at_level k xs) ≡ []
at_level_other l k [] h = refl
at_level_other l k (x ∷ xs) h = ground (arith, h, at_level_other l k xs h)

Ascending-from : (lo lo' : ℕ) (xs : List InitItem) → lo ≤ lo' → Ascending lo' xs → Ascending lo xs
Ascending-from lo lo' [] h a = tt
Ascending-from lo lo' (x ∷ xs) h a = (omega (arith, h, a.0), a.1)

Ascending-append :
    (l : ℕ) (xs ys : List InitItem) → Ascending l ys → Ascending l (at_level l xs ++ ys)
Ascending-append l [] ys a = a
Ascending-append l (x ∷ xs) ys a =
    let ih = Ascending-append l xs ys a in
    elim (Bool-cases (x.level == l)) [
      | inl e ↦
          let same : x.level ≡ l = ground (arith, e) in
          rw e (omega (arith, same), subst (λ k. Ascending k (at_level l xs ++ ys)) (sym same) ih)
      | inr e ↦ rw e ih
    ]

Descending-from :
    (hi hi' : ℕ) (xs : List InitItem) → hi' ≤ hi → Descending hi' xs → Descending hi xs
Descending-from hi hi' [] h a = tt
Descending-from hi hi' (x ∷ xs) h a = (omega (arith, h, a.0), a.1)

Descending-append :
    (l : ℕ) (xs ys : List InitItem) → Descending l ys → Descending l (at_level l xs ++ ys)
Descending-append l [] ys a = a
Descending-append l (x ∷ xs) ys a =
    let ih = Descending-append l xs ys a in
    elim (Bool-cases (x.level == l)) [
      | inl e ↦
          let same : x.level ≡ l = ground (arith, e) in
          rw e (omega (arith, same), subst (λ k. Descending k (at_level l xs ++ ys)) (sym same) ih)
      | inr e ↦ rw e ih
    ]

levels_up-Ascending :
    (n i : ℕ) (items : List InitItem) → Marked init_magic items → Ascending i (levels_up n i items)
unfolding levels_up
levels_up-Ascending zero i items h = tt
levels_up-Ascending (suc n) i items h =
    let rest =
      Ascending-from i (suc i) (levels_up n (suc i) items) (omega arith)
        (levels_up-Ascending n (suc i) items h) in
    rw (call_funcs-at_level items init_magic i h)
      (Ascending-append i items (levels_up n (suc i) items) rest)

levels_up_below :
    (n i l : ℕ) (items : List InitItem)
    → Marked init_magic items
    → l < i
    → at_level l (levels_up n i items) ≡ []
unfolding levels_up
levels_up_below zero i l items h o = refl
levels_up_below (suc n) i l items h o =
    let other = at_level_other l i items (ground arith) in
    rw (call_funcs-at_level items init_magic i h, at_level-append, other)
      (levels_up_below n (suc i) l items h (omega arith))

levels_up-at_level :
    (n i l : ℕ) (items : List InitItem)
    → Marked init_magic items
    → i ≤ l
    → l < i + n
    → at_level l (levels_up n i items) ≡ at_level l items
unfolding levels_up
levels_up-at_level zero i l items h lo hi = absurd (omega arith)
levels_up-at_level (suc n) i l items h lo hi = elim (Bool-cases (i == l)) [
  | inl e ↦
      let same : i ≡ l = ground (arith, e) in
      let later = levels_up_below n (suc i) l items h (omega arith) in
      rw (call_funcs-at_level items init_magic i h, at_level-append, later, append-nil)
        (ap (λ k. at_level l (at_level k items)) same ∙ at_level_same l items)
  | inr e ↦
      let other = at_level_other l i items e in
      rw (call_funcs-at_level items init_magic i h, at_level-append, other)
        (levels_up-at_level n (suc i) l items h (ground (arith, e)) (omega arith))
]

-- For a list whose items are all marked: init_subsystems calls the functions of every level from 0 to
-- 99 in the order of the list, and level after level.
pub init_subsystems-Ascending :
    (l : ℕ) (items : List InitItem)
    → Marked init_magic items
    → l < levels
    → (at_level l (init_subsystems items) ≡ at_level l items) × Ascending 0 (init_subsystems items)
unfolding init_subsystems
init_subsystems-Ascending l items h b = (
  levels_up-at_level levels 0 l items h (omega arith) (omega arith),
  levels_up-Ascending levels 0 items h,
)

levels_down-Descending :
    (n : ℕ) (items : List InitItem) → Marked exit_magic items → Descending n (levels_down n items)
unfolding levels_down
levels_down-Descending zero items h = tt
levels_down-Descending (suc n) items h = rw (call_funcs-at_level items exit_magic n h) (
    Descending-from (suc n) n _ (omega arith)
      (Descending-append n items (levels_down n items) (levels_down-Descending n items h)))

levels_down_above :
    (n l : ℕ) (items : List InitItem)
    → Marked exit_magic items
    → n ≤ l
    → at_level l (levels_down n items) ≡ []
unfolding levels_down
levels_down_above zero l items h o = refl
levels_down_above (suc n) l items h o =
    let other = at_level_other l n items (ground arith) in
    rw (call_funcs-at_level items exit_magic n h, at_level-append, other)
      (levels_down_above n l items h (omega arith))

levels_down-at_level :
    (n l : ℕ) (items : List InitItem)
    → Marked exit_magic items
    → l < n
    → at_level l (levels_down n items) ≡ at_level l items
unfolding levels_down
levels_down-at_level zero l items h o = absurd (omega arith)
levels_down-at_level (suc n) l items h o = elim (Bool-cases (n == l)) [
  | inl e ↦
      let same : n ≡ l = ground (arith, e) in
      let later = levels_down_above n l items h (omega arith) in
      rw (call_funcs-at_level items exit_magic n h, at_level-append, later, append-nil)
        (ap (λ k. at_level l (at_level k items)) same ∙ at_level_same l items)
  | inr e ↦
      let other = at_level_other l n items e in
      rw (call_funcs-at_level items exit_magic n h, at_level-append, other)
        (levels_down-at_level n l items h (ground (arith, e)))
]

-- exit_subsystems likewise calls them level after level from 99 down, for items marked for it.
pub exit_subsystems-Descending :
    (l : ℕ) (items : List InitItem)
    → Marked exit_magic items
    → l < levels
    → (at_level l (exit_subsystems items) ≡ at_level l items)
      × Descending levels (exit_subsystems items)
unfolding exit_subsystems
exit_subsystems-Descending l items h b =
    (levels_down-at_level levels l items h b, levels_down-Descending levels items h)
