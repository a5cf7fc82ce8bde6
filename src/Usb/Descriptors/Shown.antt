-- ===== src/Usb/Descriptors/Shown.antt =====
-- Endpoint 0 can send each of the descriptors that usb_mot_open sets up.
use gen_blob.Base.{
  ℕ, zero, suc, ◌+◌, ◌*◌, ◌≤◌, ◌<◌, List, [], ◌∷◌, Option, none, some, ◌≡◌, refl, ap, ◌∙◌, arith,
  length, ltb, true, store,
}
use gen_blob.Usb.Control.{Ctl, pxa_usb_set_string_descriptor, max_string_desc}
use gen_blob.Usb.Ep0.{Desc, config_length}
use gen_blob.Usb.Ep0.Setup.{IsWhole, AreWhole, IsDescribed}
use gen_blob.Usb.Descriptors.{
  ezx_str, wide, string_descriptor, set_strings, set_product, set_configuration,
}

length-wide : (s : List ℕ) → length (wide s) ≡ 2 * length s
unfolding wide
length-wide [] = refl
length-wide (c ∷ cs) = omega (arith, length-wide cs)

string_descriptor-IsWhole : (s : List ℕ) → IsWhole (string_descriptor s)
unfolding string_descriptor
string_descriptor-IsWhole s = (2 * length s + 2, refl, omega (arith, length-wide s))

store-AreWhole :
    (ps : List (Option (List ℕ))) (i : ℕ) (s : List ℕ)
    → AreWhole ps
    → i < length ps
    → IsWhole s
    → (qs : List (Option (List ℕ))) × (store ps i (some s) ≡ some qs)
      × AreWhole qs
      × (length qs ≡ length ps)
unfolding store
store-AreWhole [] i s w h p = absurd (omega arith)
store-AreWhole (none ∷ ps) zero s w h p = (some s ∷ ps, refl, (p, w), refl)
store-AreWhole (some t ∷ ps) zero s w h p = (some s ∷ ps, refl, (p, w.1), refl)
store-AreWhole (none ∷ ps) (suc i) s w h p =
    let (qs, e, v, l) = store-AreWhole ps i s w (omega arith) p in
    (none ∷ qs, rw e refl, v, ap suc l)
store-AreWhole (some t ∷ ps) (suc i) s w h p =
    let (qs, e, v, l) = store-AreWhole ps i s w.1 (omega arith) p in
    (some t ∷ qs, rw e refl, (w.0, v), ap suc l)

-- Only the array of the descriptors changes, and its descriptors stay whole.
set_strings-AreWhole :
    (ss : List (List ℕ)) (index : ℕ) (c : Ctl)
    → AreWhole c.string_desc_array
    → length c.string_desc_array ≡ max_string_desc
    → index + length ss ≤ max_string_desc
    → (arr : List (Option (List ℕ))) × (set_strings ss index c
        ≡ some (record c { string_desc_array = arr }))
      × AreWhole arr
      × (length arr ≡ max_string_desc)
unfolding set_strings pxa_usb_set_string_descriptor
set_strings-AreWhole [] index c w l h = (c.string_desc_array, refl, w, l)
set_strings-AreWhole (s ∷ ss) index c w l h =
    let (arr, stored, whole, same) =
      store-AreWhole c.string_desc_array index (string_descriptor s) w (omega arith)
        (string_descriptor-IsWhole s) in
    let inside : ltb index max_string_desc ≡ true = ground arith in
    let (arr', runs, whole', same') =
      set_strings-AreWhole ss (suc index) (record c { string_desc_array = arr }) whole (same ∙ l)
        (omega arith) in
    (arr', rw (inside, stored) runs, whole', same')

-- What usb_mot_open makes of the descriptors and of the array.
pub described :
    (desc : Desc) (c : Ctl)
    → AreWhole c.string_desc_array
    → length c.string_desc_array ≡ max_string_desc
    → (arr : List (Option (List ℕ))) × (set_strings ezx_str 1 c
        ≡ some (record c { string_desc_array = arr }))
      × IsDescribed (set_configuration (set_product desc)) (record c { string_desc_array = arr })
unfolding set_configuration set_product config_length
described desc c w l =
    let (arr, runs, whole, same) = set_strings-AreWhole ezx_str 1 c w l (omega arith) in
    (
      arr,
      runs,
      record {
        dev = (18, refl, omega arith);
        configs = (1, 32, refl, refl, omega arith);
        strings = whole;
        slots = same;
      },
    )
