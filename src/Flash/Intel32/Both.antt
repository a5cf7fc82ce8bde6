-- ===== src/Flash/Intel32/Both.antt =====
-- The driver of src/blob/intel32.c waits for both chips, and judges the errors of both.
use gen_blob.Base.{
  ℕ, zero, suc, ◌-◌, ◌^◌, ◌<◌, ◌≡◌, ◌∙◌, refl, sym, ap, Bool, true, false, not, ◌||◌, ◌&&◌, Option,
  some, ◌==◌, if◌then◌else◌, Bool-cases, inl, inr, ==_iff, ne→==, arith, pos, neg, bit_and, bit_or,
  test, test-bit_and, test-bit_or, test_zero, test_injective, test_complement, bit_and-power,
}
use gen_blob.Flash.{eflasherase}
use gen_blob.Flash.Program.{Bus}
use gen_blob.Flash.Intel32.{both_ready, command, read_both, poll_both, flash_erase_intel32}

and_or : (a b c : Bool) → (a && (b || c)) ≡ ((a && b) || (a && c))
and_or true b c = refl
and_or false b c = refl

left_false : (a b : Bool) → (a || b) ≡ false → a ≡ false
left_false true b h = h
left_false false b h = refl

bit_and-bit_or : (r x y : ℕ) → bit_and r (bit_or x y) ≡ bit_or (bit_and r x) (bit_and r y)
bit_and-bit_or r x y =
    test_injective (bit_and r (bit_or x y)) (bit_or (bit_and r x) (bit_and r y)) (λ k.
      test-bit_and k r (bit_or x y)
      ∙ ap (λ b. test k r && b) (test-bit_or k x y)
      ∙ and_or (test k r) (test k x) (test k y)
      ∙ ap (λ b. b || (test k r && test k y)) (sym (test-bit_and k r x))
      ∙ ap (λ b. test k (bit_and r x) || b) (sym (test-bit_and k r y))
      ∙ sym (test-bit_or k (bit_and r x) (bit_and r y)))

bit_or-zero : (v : ℕ) → bit_or 0 v ≡ v
bit_or-zero v =
    test_injective (bit_or 0 v) v (λ k. test-bit_or k 0 v ∙ ap (λ b. b || test k v) (test_zero k))

none_of_or : (u v : ℕ) → bit_or u v ≡ 0 → u ≡ 0
none_of_or u v h = test_injective u 0 (λ k.
    left_false (test k u) (test k v) (sym (test-bit_or k u v) ∙ ap (test k) h ∙ test_zero k)
    ∙ sym (test_zero k))

some_of_or : (u v : ℕ) → not (bit_or u v == 0) ≡ (not (u == 0) || not (v == 0))
some_of_or u v = elim (Bool-cases (u == 0)) [
  | inl e ↦ rw ((==_iff u 0).0 e, bit_or-zero v) refl
  | inr e ↦ rw (e, ne→== (bit_or u v) 0 (λ h. ground (arith, none_of_or u v h, e))) refl
]

-- A test of two bits by a mask.
two_bits : (a b r : ℕ) → not (bit_and r (bit_or (2 ^ a) (2 ^ b)) == 0) ≡ (test a r || test b r)
two_bits a b r =
    ap (λ x. not (x == 0)) (bit_and-bit_or r (2 ^ a) (2 ^ b))
    ∙ some_of_or (bit_and r (2 ^ a)) (bit_and r (2 ^ b))
    ∙ ap (λ x. x || not (bit_and r (2 ^ b) == 0)) (bit_and-power a r)
    ∙ ap (λ x. test a r || x) (bit_and-power b r)

both_set : (x y : Bool) → (not x || not y) ≡ false → (x ≡ true) × (y ≡ true)
both_set true true h = (refl, refl)
both_set true false h = (refl, sym h)
both_set false y h = absurd (ground (arith, h))

-- The test of the loop, by the bits of the status.
ready_test : (r : ℕ) → r < 2 ^ 32 → (not (test 7 r) || not (test 23 r)) ≡ not (both_ready r)
ready_test r small =
    ap (λ b. b || not (test 23 r)) (sym (test_complement 32 7 r (omega arith) small))
    ∙ ap (λ b. test 7 (2 ^ 32 - 1 - r) || b) (sym (test_complement 32 23 r (omega arith) small))
    ∙ sym (two_bits 7 23 (2 ^ 32 - 1 - r))

-- A status that ends the wait: that of two ready chips.
both_ready-bits :
    (r : ℕ) → r < 2 ^ 32 → both_ready r ≡ true → (test 7 r ≡ true) × (test 23 r ≡ true)
both_ready-bits r small h = both_set (test 7 r) (test 23 r) (ready_test r small ∙ ap not h)

two_not : (x y : Bool) → (not x || not y) ≡ true → (x && y) ≡ false
two_not true true h = sym h
two_not true false h = refl
two_not false y h = refl

-- A status in which a chip is busy.
not_both_ready : (r : ℕ) → r < 2 ^ 32 → both_ready r ≡ false → (test 7 r && test 23 r) ≡ false
not_both_ready r small h = two_not (test 7 r) (test 23 r) (ready_test r small ∙ ap not h)

module _ {Chip : Type 0} (bus : Bus Chip) (to_flash from_flash : ℕ → ℕ) where
  -- The chips after `n` turns of the loop that polls.
  unfoldable pub polled_both : ℕ → ℕ → Chip → Chip
  polled_both zero addr c = c
  polled_both (suc n) addr c = polled_both n addr (read_both bus to_flash from_flash addr c).1

  -- Wherever the polling starts, both chips are ready at once within fewer than `fuel` turns.
  abbrev pub SettleBoth : ℕ → Type 0
  SettleBoth fuel =
      (addr : ℕ) (c : Chip)
      → (n : ℕ) × (n < fuel)
        × (both_ready (read_both bus to_flash from_flash addr (polled_both n addr c)).0 ≡ true)

  -- The status that turn `n` of the polling reads, and the chips behind it.
  abbrev pub turn : ℕ → ℕ → Chip → ℕ × Chip
  turn n addr c = read_both bus to_flash from_flash addr (polled_both n addr c)

  -- The wait ends with the first status that shows both chips ready.
  abbrev pub Polled : ℕ → ℕ → Chip → Option (ℕ × Chip) → Type 0
  Polled fuel addr c answer =
      (n : ℕ) × (n < fuel)
      × (answer ≡ some (turn n addr c))
      × (test 7 (turn n addr c).0 ≡ true)
      × (test 23 (turn n addr c).0 ≡ true)
      × ((i : ℕ) → i < n → (test 7 (turn i addr c).0 && test 23 (turn i addr c).0) ≡ false)

  turn_small : (n addr : ℕ) (c : Chip) → (turn n addr c).0 < 2 ^ 32
  unfolding read_both
  turn_small n addr c = omega arith

  ready-Polled :
      (fuel addr : ℕ) (c : Chip)
      → both_ready (turn 0 addr c).0 ≡ true
      → Polled (suc fuel) addr c (some (turn 0 addr c))
  ready-Polled fuel addr c h =
      let (seven, other) = both_ready-bits (turn 0 addr c).0 (turn_small 0 addr c) h in
      (0, omega arith, refl, seven, other, λ i l. absurd (omega arith))

  -- A turn more, in which a chip was busy.
  busy_before :
      (n addr i : ℕ) (c : Chip)
      → both_ready (turn 0 addr c).0 ≡ false
      → ((j : ℕ)
          → j < n
          → (test 7 (turn j addr (turn 0 addr c).1).0 && test 23 (turn j addr (turn 0 addr c).1).0)
            ≡ false)
      → i < suc n
      → (test 7 (turn i addr c).0 && test 23 (turn i addr c).0) ≡ false
  unfolding polled_both
  busy_before n addr zero c busy before l =
      not_both_ready (turn 0 addr c).0 (turn_small 0 addr c) busy
  busy_before n addr (suc j) c busy before l = before j (omega arith)

  busy-Polled :
      (fuel addr : ℕ) (c : Chip) (answer : Option (ℕ × Chip))
      → both_ready (turn 0 addr c).0 ≡ false
      → Polled fuel addr (turn 0 addr c).1 answer
      → Polled (suc fuel) addr c answer
  unfolding polled_both
  busy-Polled fuel addr c answer busy (n, less, runs, seven, other, before) =
      (suc n, omega arith, runs, seven, other, λ i l. busy_before n addr i c busy before l)

  poll_both-Polled :
      (n m addr : ℕ) (c : Chip)
      → n < m
      → both_ready (turn n addr c).0 ≡ true
      → Polled m addr c (poll_both bus to_flash from_flash m addr c)
  unfolding poll_both polled_both
  poll_both-Polled n zero addr c l h = absurd (omega arith)
  poll_both-Polled zero (suc m) addr c l h = rw h (ready-Polled m addr c h)
  poll_both-Polled (suc n) (suc m) addr c l h = elim (Bool-cases (both_ready (turn 0 addr c).0)) [
    | inl e ↦ rw e (ready-Polled m addr c e)
    | inr e ↦ rw e (
        busy-Polled m addr c (poll_both bus to_flash from_flash m addr (turn 0 addr c).1) e
          (poll_both-Polled n m addr (turn 0 addr c).1 (omega arith) h))
  ]

  -- The chips behind the commands that clear the status, set up and confirm.
  abbrev pub confirmed : ℕ → Chip → Chip
  confirmed addr c = command bus to_flash from_flash addr 0x00d000d0 (
      command bus to_flash from_flash addr 0x00200020
        (command bus to_flash from_flash addr 0x00500050 c))

  -- Where both chips get ready at once within `fuel` reads of their status, flash_erase_intel32
  -- returns: behind the commands that clear the status, set up and confirm, it reads the status up
  -- to the first in which both chips are ready, within `fuel` turns; it answers -EFLASHERASE if that
  -- status shows an error of either chip, and 0 otherwise, and has then set the chips, as this read
  -- left them, to show their array.
  pub flash_erase_intel32-Both :
      (fuel addr : ℕ) (c : Chip)
      → SettleBoth fuel
      → (n : ℕ) × (n < fuel)
        × (test 7 (turn n addr (confirmed addr c)).0 ≡ true)
        × (test 23 (turn n addr (confirmed addr c)).0 ≡ true)
        × ((i : ℕ)
            → i < n
            → (test 7 (turn i addr (confirmed addr c)).0
                && test 23 (turn i addr (confirmed addr c)).0)
              ≡ false)
        × (flash_erase_intel32 bus to_flash from_flash fuel addr c
            ≡ some (
              if test 5 (turn n addr (confirmed addr c)).0
                    || test 21 (turn n addr (confirmed addr c)).0
                  then neg eflasherase
                  else pos 0,
              command bus to_flash from_flash addr 0x00ff00ff (turn n addr (confirmed addr c)).1,
            ))
  unfolding flash_erase_intel32
  flash_erase_intel32-Both fuel addr c settles =
      let start = confirmed addr c in
      let (k, less, ready) = settles addr start in
      let (n, within, runs, seven, other, before) = poll_both-Polled k fuel addr start less ready in
      let last = command bus to_flash from_flash addr 0x00ff00ff (turn n addr start).1 in
      let judged =
        ap (λ b. some (if b then neg eflasherase else pos 0, last))
          (two_bits 5 21 (turn n addr start).0) in
      (n, within, seven, other, before, rw runs judged)
