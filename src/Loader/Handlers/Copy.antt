-- ===== src/Loader/Handlers/Copy.antt =====
-- BIN moves its data to a word boundary and copies it to the load address.
use gen_blob.Base.{
  ℕ, zero, suc, ◌+◌, ◌-◌, ◌%◌, ◌^◌, ◌≤◌, ◌<◌, true, List, [], ◌∷◌, ◌++◌, none, some, ◌≡◌, inl, inr,
  refl, sym, ap, ap₂, ◌∙◌, arith, ◌==◌, if◌then◌else◌, u16, ◌<<<◌, length, get_elem?, store,
  store-append, take, drop, length-append, append_assoc, Bool-cases, le→ltb, length-take,
  take-append-drop,
}
use gen_blob.Loader.Receive.Buffers.{drop-append}
use gen_blob.Loader.Device.{Device}
use gen_blob.Loader.Handlers.{ack, shift_right, copy_to_ram, handle_command_bin}
use gen_blob.Loader.Memory.ReadBack.{read_bytes-write_bytes}
use gen_blob.Loader.Memory.{write_bytes, read_bytes}

snoc :
    (xs : List ℕ) (n : ℕ)
    → length xs ≡ suc n
    → (ys : List ℕ) × (x : ℕ) × (xs ≡ ys ++ x ∷ []) × (length ys ≡ n)
snoc [] n h = absurd (omega arith)
snoc (x ∷ []) n h = ([], x, refl, omega arith)
snoc (x ∷ x' ∷ xs) n h =
    let (ys, y, e, size) = snoc (x' ∷ xs) (n - 1) (omega arith) in
    (x ∷ ys, y, ap (◌∷◌ x) e, omega arith)

get_elem?-append : (xs ys : List ℕ) (y : ℕ) → get_elem? (xs ++ y ∷ ys) (length xs) ≡ some y
get_elem?-append [] ys y = refl
get_elem?-append (x ∷ xs) ys y = get_elem?-append xs ys y

-- Bytes `ys` behind `pre` change places with a gap of `k` bytes behind them, whose contents go.
shift_right-gap :
    (k n : ℕ) (pre ys gap t : List ℕ)
    → length ys ≡ n
    → length gap ≡ k
    → (gap' : List ℕ) × (length gap' ≡ k)
      × (shift_right k (length pre) n (pre ++ (ys ++ (gap ++ t)))
          ≡ some (pre ++ (gap' ++ (ys ++ t))))
unfolding shift_right
shift_right-gap k zero pre [] gap t e f = (gap, f, refl)
shift_right-gap k zero pre (y ∷ ys) gap t e f = absurd (omega arith)
shift_right-gap k (suc n) pre ys gap t e f =
    let (ys', x, split, size) = snoc ys n e in
    let (front, g, gap_split, gap_size) = snoc (x ∷ gap) k (ap suc f) in
    let place : length (pre ++ ys') ≡ length pre + n = omega (arith, length-append pre ys') in
    let place' : length ((pre ++ ys') ++ front) ≡ length pre + n + k =
      omega (arith, length-append (pre ++ ys') front, length-append pre ys') in
    let joined : (zs : List ℕ) → ys ++ zs ≡ ys' ++ x ∷ zs =
      λ zs. ap (λ w. w ++ zs) split ∙ append_assoc ys' (x ∷ []) zs in
    let whole : pre ++ (ys ++ (gap ++ t)) ≡ (pre ++ ys') ++ (x ∷ (gap ++ t)) =
      ap (λ w. pre ++ w) (joined (gap ++ t)) ∙ sym (append_assoc pre ys' (x ∷ (gap ++ t))) in
    let regap : x ∷ (gap ++ t) ≡ front ++ g ∷ t =
      ap (λ w. w ++ t) gap_split ∙ append_assoc front (g ∷ []) t in
    let whole' : (pre ++ ys') ++ (x ∷ (gap ++ t)) ≡ ((pre ++ ys') ++ front) ++ (g ∷ t) =
      ap (λ w. (pre ++ ys') ++ w) regap ∙ sym (append_assoc (pre ++ ys') front (g ∷ t)) in
    let read : get_elem? (pre ++ (ys ++ (gap ++ t))) (length pre + n) ≡ some x =
      ap₂ (λ a i. get_elem? a i) whole (sym place) ∙ get_elem?-append (pre ++ ys') (gap ++ t) x in
    let stored : store (pre ++ (ys ++ (gap ++ t))) (length pre + n + k) x
        ≡ some (pre ++ (ys' ++ (front ++ (x ∷ t)))) =
      ap₂ (λ a i. store a i x) (whole ∙ whole') (sym place')
      ∙ store-append ((pre ++ ys') ++ front) g t x
      ∙ ap some
          (append_assoc (pre ++ ys') front (x ∷ t) ∙ append_assoc pre ys' (front ++ (x ∷ t))) in
    let (gap', gap_size', rest) = shift_right-gap k n pre ys' front (x ∷ t) size gap_size in
    (
      gap',
      gap_size',
      rw (read, stored) (rest ∙ ap (λ w. some (pre ++ (gap' ++ w))) (sym (joined t))),
    )

take-append : (xs ys : List ℕ) → take (length xs) (xs ++ ys) ≡ xs
take-append [] ys = refl
take-append (x ∷ xs) ys = ap (◌∷◌ x) (take-append xs ys)

-- The bytes behind the size field, after the move by `k`.
moved :
    (k msb lsb : ℕ) (block rest : List ℕ)
    → k ≤ 3
    → 3 ≤ length rest
    → (ds : List ℕ) × ((if k == 0
          then some (msb ∷ lsb ∷ (block ++ rest))
          else shift_right k 2 (length block) (msb ∷ lsb ∷ (block ++ rest)))
        ≡ some ds)
      × (take (length block) (drop (2 + k) ds) ≡ block)
moved k msb lsb block rest small room = elim (Bool-cases (k == 0)) [
  | inl zero_k ↦
      let none_k : 2 + k ≡ 2 = ground arith in
      (
        msb ∷ lsb ∷ (block ++ rest),
        rw zero_k refl,
        ap (λ i. take (length block) (drop i (msb ∷ lsb ∷ (block ++ rest)))) none_k
            ∙ take-append block rest,
      )
  | inr some_k ↦
      let gap_size : length (take k rest) ≡ k = omega (arith, length-take k rest) in
      let split : msb ∷ lsb ∷ (block ++ rest)
          ≡ (msb ∷ lsb ∷ []) ++ (block ++ (take k rest ++ drop k rest)) =
        ap (λ w. msb ∷ lsb ∷ (block ++ w)) (sym (take-append-drop k rest)) in
      let (gap, size, shifted) =
        shift_right-gap k (length block) (msb ∷ lsb ∷ []) block (take k rest) (drop k rest) refl
          gap_size in
      let behind : 2 + k ≡ length (msb ∷ lsb ∷ gap) = omega arith in
      (
        msb ∷ lsb ∷ (gap ++ (block ++ drop k rest)),
        rw some_k (ap (shift_right k 2 (length block)) split ∙ shifted),
        ap (λ j. take (length block) (drop j (msb ∷ lsb ∷ (gap ++ (block ++ drop k rest))))) behind
            ∙ ap (take (length block)) (drop-append (msb ∷ lsb ∷ gap) (block ++ drop k rest))
            ∙ take-append block (drop k rest),
      )
]

module _ {Flash : Type 0} where
  -- BIN, for a size field that is a multiple of 8 and tells the length of the bytes behind it, with
  -- room for three bytes more: wherever recvData lies, what it acknowledges is a device whose
  -- memory has just these bytes at the load address, and reading them there gives them back.
  pub handle_command_bin-read_bytes :
      (msb lsb : ℕ) (block rest : List ℕ) (d : Device Flash)
      → d.recv_data ≡ msb ∷ lsb ∷ (block ++ rest)
      → u16 (msb <<< 8 + lsb) ≡ length block
      → length block % 8 ≡ 0
      → length block < 2 ^ 32
      → 3 ≤ length rest
      → (ds : List ℕ) × (handle_command_bin true d
          ≡ ack none
              (record d { recv_data = ds; mem = write_bytes d.mem d.received_address block }))
        × (read_bytes (write_bytes d.mem d.received_address block) d.received_address (length block)
            ≡ block)
  unfolding handle_command_bin copy_to_ram
  handle_command_bin-read_bytes msb lsb block rest d data_is size whole small room =
      let back = read_bytes-write_bytes d.mem d.received_address block (omega arith) in
      let k = (4 - (d.recv_data_addr + 2) % 4) % 4 in
      let (ds, shifted, at) = moved k msb lsb block rest (omega arith) room in
      let shifted' : (if k == 0
            then some d.recv_data
            else shift_right k 2 (length block) d.recv_data)
          ≡ some ds =
        ap (λ l. if k == 0 then some l else shift_right k 2 (length block) l) data_is ∙ shifted in
      let first : get_elem? d.recv_data 0 ≡ some msb = ap (λ l. get_elem? l 0) data_is in
      let second : get_elem? d.recv_data 1 ≡ some lsb = ap (λ l. get_elem? l 1) data_is in
      let multiple : (length block % 8 == 0) ≡ true = ground arith in
      let enough = le→ltb (length block) (length block) (omega arith) in
      (ds, rw (first, second, size, multiple, copy_to_ram, shifted', at, enough) refl, back)
