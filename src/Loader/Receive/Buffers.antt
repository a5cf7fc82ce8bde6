-- ===== src/Loader/Receive/Buffers.antt =====
-- An array that is filled from its start, and the search for ETX in it.
use gen_blob.Base.{
  ℕ, zero, suc, ◌+◌, ◌≤◌, ◌<◌, List, [], ◌∷◌, ◌++◌, none, some, ◌≡◌, ◌≢◌, ◌⊎◌, inl, inr, refl, sym,
  ap, ap₂, ◌∙◌, arith, length, drop, length-append, length-drop, store, store-append, append_assoc,
  >>=-eq-some,
}
use native.Mathlib.Nat.{zero-add, add-zero}
use gen_blob.Loader.Device.{etx}
use gen_blob.Loader.Receive.{store_all, scan_etx}

-- No element is `c`.
abbrev pub Lacks : ℕ → List ℕ → Type 0
Lacks c [] = Unit
Lacks c (x ∷ xs) = (x ≢ c) × Lacks c xs

pub Lacks-append : (c : ℕ) (xs ys : List ℕ) → Lacks c (xs ++ ys) → Lacks c xs × Lacks c ys
Lacks-append c [] ys h = (tt, h)
Lacks-append c (x ∷ xs) ys h = let (l, r) = Lacks-append c xs ys h.1 in ((h.0, l), r)

-- The array `arr` with `xs` written over its first elements.
abbrev pub overlay : List ℕ → List ℕ → List ℕ
overlay xs arr = xs ++ drop (length xs) arr

drop-drop : (m n : ℕ) (xs : List ℕ) → drop n (drop m xs) ≡ drop (m + n) xs
drop-drop zero n xs = rw zero-add
drop-drop (suc m) zero [] = rw add-zero
drop-drop (suc m) (suc n) [] = let e : suc m + suc n ≡ suc (m + suc n) = omega arith in rw e
drop-drop (suc m) n (x ∷ xs) =
    let e : suc m + n ≡ suc (m + n) = omega arith in rw e (drop-drop m n xs)

store_all-append :
    (xs t bs : List ℕ)
    → length bs ≤ length t
    → store_all (xs ++ t) (length xs) bs ≡ some (xs ++ (bs ++ drop (length bs) t))
unfolding store_all
store_all-append xs t [] h = refl
store_all-append xs [] (b ∷ bs) h = absurd (omega arith)
store_all-append xs (y ∷ t) (b ∷ bs) h =
    let next : length xs + 1 ≡ length (xs ++ b ∷ []) = omega (arith, length-append xs (b ∷ [])) in
    let regroup : xs ++ b ∷ t ≡ (xs ++ b ∷ []) ++ t = sym (append_assoc xs (b ∷ []) t) in
    rw (store-append xs y t b, store_all)
      (ap₂ (λ a i. store_all a i bs) regroup next
        ∙ store_all-append (xs ++ b ∷ []) t bs (omega arith)
        ∙ ap some (append_assoc xs (b ∷ []) _))

-- Writing behind what was written.
pub store_all-overlay :
    (xs arr bs : List ℕ)
    → length xs + length bs ≤ length arr
    → store_all (overlay xs arr) (length xs) bs ≡ some (overlay (xs ++ bs) arr)
store_all-overlay xs arr bs h =
    let behind : drop (length bs) (drop (length xs) arr) ≡ drop (length (xs ++ bs)) arr =
      drop-drop (length xs) (length bs) arr ∙ ap (λ k. drop k arr) (sym (length-append xs bs)) in
    store_all-append xs (drop (length xs) arr) bs (omega (arith, length-drop (length xs) arr))
    ∙ ap (λ t. some (xs ++ (bs ++ t))) behind
    ∙ ap some (sym (append_assoc xs bs (drop (length (xs ++ bs)) arr)))

pub store-overlay_next :
    (xs arr : List ℕ) (v : ℕ)
    → length xs < length arr
    → store (overlay xs arr) (length xs) v ≡ some (overlay (xs ++ v ∷ []) arr)
unfolding store_all
store-overlay_next xs arr v h =
    let (a, stored, same) =
      >>=-eq-some (store (overlay xs arr) (length xs) v) (λ a. some a)
        (store_all-overlay xs arr (v ∷ []) (omega arith)) in
    stored ∙ same

pub store-overlay :
    (xs arr : List ℕ) (b v : ℕ)
    → length xs < length arr
    → store (overlay (xs ++ b ∷ []) arr) (length xs) v ≡ some (overlay (xs ++ v ∷ []) arr)
store-overlay xs arr b v h =
    let same : length (xs ++ b ∷ []) ≡ length (xs ++ v ∷ []) =
      omega (arith, length-append xs (b ∷ []), length-append xs (v ∷ [])) in
    ap (λ a. store a (length xs) v) (append_assoc xs (b ∷ []) (drop (length (xs ++ b ∷ [])) arr))
    ∙ store-append xs b (drop (length (xs ++ b ∷ [])) arr) v
    ∙ ap (λ k. some (xs ++ v ∷ drop k arr)) same
    ∙ ap some (sym (append_assoc xs (v ∷ []) (drop (length (xs ++ v ∷ [])) arr)))

pub scan_etx-none : (xs t : List ℕ) → Lacks etx xs → scan_etx (xs ++ t) (length xs) ≡ none
unfolding scan_etx
scan_etx-none [] t h = refl
scan_etx-none (x ∷ xs) t h = ground (arith, scan_etx-none xs t h.1)

pub scan_etx-some :
    (xs t : List ℕ) (n : ℕ)
    → Lacks etx xs
    → length xs < n
    → scan_etx (xs ++ etx ∷ t) n ≡ some (length xs)
unfolding scan_etx
scan_etx-some xs t zero h l = absurd (omega arith)
scan_etx-some [] t (suc n) h l = refl
scan_etx-some (x ∷ xs) t (suc n) h l = ground (arith, scan_etx-some xs t n h.1)

pub drop-append : (xs ys : List ℕ) → drop (length xs) (xs ++ ys) ≡ ys
drop-append [] ys = refl
drop-append (x ∷ xs) ys = drop-append xs ys

-- Two ways to cut one list: the first cut lies in the first part of the second, or behind it.
pub append_split :
    (xs ys us vs : List ℕ)
    → xs ++ ys ≡ us ++ vs
    → ((ws : List ℕ) × (us ≡ xs ++ ws) × (ys ≡ ws ++ vs))
      ⊎ ((w : ℕ) × (ws : List ℕ) × (xs ≡ us ++ w ∷ ws) × (vs ≡ w ∷ (ws ++ ys)))
append_split [] ys us vs h = inl (us, refl, h)
append_split (x ∷ xs) ys [] vs h = inr (x, xs, refl, sym h)
append_split (x ∷ xs) ys (u ∷ us) vs h = elim (append_split xs ys us vs (cc)) [
  | inl (ws, e, f) ↦ inl (ws, cc, f)
  | inr (w, ws, e, f) ↦ inr (w, ws, cc, f)
]

-- A stream of transfers.
abbrev pub concat : List (List ℕ) → List ℕ
concat [] = []
concat (b ∷ bs) = b ++ concat bs
