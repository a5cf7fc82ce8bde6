-- ===== src/Usb/Control/Life.antt =====
-- The calls of src/blob/usb_ctl.c that change its statics, in every order.
use gen_blob.Base.{
  ℕ, List, Option, none, some, ◌≡◌, refl, arith, length, ltb, length-store, Bool-cases,
  get_in_range, inl, inr,
}
use gen_blob.Usb.Ep1.{Code}
use gen_blob.Usb.Control.{
  Event, Ctl, usbctl_next_state_on_event, pxa_usb_open, pxa_usb_close, pxa_set_configured_callback,
  pxa_usb_set_string_descriptor, pxa_usb_get_string_descriptor, sm_state_to_device_state,
  max_string_desc,
}
use gen_blob.Usb.Control.Machine.{IsConsistent, next-IsConsistent, next-keeps}

-- One call, with its arguments.
infix 40 ◌⟶◌ ◌⟶*◌
pub data ◌⟶◌ : Ctl → Ctl → Type 0 where
  by_event : (e : Event) (c : Ctl) → c ⟶ (usbctl_next_state_on_event e c).0
  by_open : (client : ℕ) (c : Ctl) → c ⟶ (pxa_usb_open client c).0
  by_close : (c : Ctl) → c ⟶ (pxa_usb_close c).0
  by_callback : (f : Option ℕ) (c : Ctl) → c ⟶ (pxa_set_configured_callback f c).0
  by_descriptor :
      {c' : Ctl} {code : Code} (i : ℕ) (p : Option (List ℕ)) (c : Ctl)
      → pxa_usb_set_string_descriptor i p c ≡ some (c', code)
      → c ⟶ c'

pub data ◌⟶*◌ : Ctl → Ctl → Type 0 where
  here : {c : Ctl} → c ⟶* c
  next : {c d e : Ctl} → c ⟶* d → d ⟶ e → c ⟶* e

pub record IsWellFormed (c : Ctl) : Type 0 where
  pub consistent : IsConsistent c
  pub strings : length c.string_desc_array ≡ max_string_desc

-- The array, as a call leaves it that stores a descriptor or refuses to.
descriptor-keeps :
    {c' : Ctl} {code : Code} (i : ℕ) (p : Option (List ℕ)) (c : Ctl)
    → pxa_usb_set_string_descriptor i p c ≡ some (c', code)
    → ((c'.sm_state ≡ c.sm_state) × (c'.state ≡ c.state))
      × (length c'.string_desc_array ≡ length c.string_desc_array)
unfolding pxa_usb_set_string_descriptor
descriptor-keeps {c'} {code} i p c h = grind (arith, length-store c.string_desc_array i p)

opened-IsWellFormed :
    (client : ℕ) (c : Ctl) → c.client_name ≡ none → IsWellFormed (pxa_usb_open client c).0
unfolding pxa_usb_open sm_state_to_device_state
opened-IsWellFormed client c h = record { consistent = ground arith; strings = ground arith }

step-IsWellFormed : {c d : Ctl} → c ⟶ d → IsWellFormed c → IsWellFormed d
unfolding pxa_usb_open pxa_usb_close pxa_set_configured_callback sm_state_to_device_state
step-IsWellFormed (by_event e c) w = record {
  consistent = next-IsConsistent e c w.consistent;
  strings = ground (arith, w.strings, next-keeps e c);
}
step-IsWellFormed (by_open client c) w = record {
  consistent = ground (arith, w.consistent);
  strings = ground (arith, w.strings);
}
step-IsWellFormed (by_close c) w = record {
  consistent = ground (arith, w.consistent);
  strings = ground (arith, w.strings);
}
step-IsWellFormed (by_callback f c) w = record { consistent = w.consistent; strings = w.strings }
step-IsWellFormed (by_descriptor i p c h) w = record {
  consistent = ground (arith, w.consistent, descriptor-keeps i p c h);
  strings = ground (arith, w.strings, descriptor-keeps i p c h);
}

lookup_in_array :
    (i : ℕ) (d : Ctl)
    → length d.string_desc_array ≡ max_string_desc
    → (p : Option (List ℕ)) × (pxa_usb_get_string_descriptor i d ≡ some p)
unfolding pxa_usb_get_string_descriptor
lookup_in_array i d h = elim (Bool-cases (ltb i max_string_desc)) [
  | inl e ↦ rw e (get_in_range d.string_desc_array i (ground arith))
  | inr e ↦ rw e (none, refl)
]

reach-IsWellFormed : {c d : Ctl} → c ⟶* d → IsWellFormed c → IsWellFormed d
reach-IsWellFormed here w = w
reach-IsWellFormed (next r s) w = step-IsWellFormed s (reach-IsWellFormed r w)

-- After a successful open, and then any calls in any order, the device state that the driver shows
-- is the one of its own state, and the lookup of a string descriptor never leaves the array.
pub open-IsWellFormed :
    {d : Ctl} (client i : ℕ) (c : Ctl)
    → c.client_name ≡ none
    → (pxa_usb_open client c).0 ⟶* d
    → IsWellFormed d × (p : Option (List ℕ)) × (pxa_usb_get_string_descriptor i d ≡ some p)
open-IsWellFormed {d} client i c h r =
    let w : IsWellFormed d = reach-IsWellFormed r (opened-IsWellFormed client c h) in
    let (p, found) = lookup_in_array i d w.strings in (w, p, found)
