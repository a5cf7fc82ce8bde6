-- ===== src/Usb/Control/Machine.antt =====
-- The state machine of src/blob/usb_ctl.c: what every sequence of events does with the state of the
-- device that the rest of the program reads.
use gen_blob.Base.{
  ℕ, zero, suc, replicate, ◌++◌, ◌+◌, List, [], ◌∷◌, Option, none, some, ◌≡◌, refl, arith, ◌≢◌,
}
use gen_blob.Usb.Control.{
  state_config, Event, ev_suspend, ev_reset, ev_resume, ev_config, usb_suspended, usb_configured,
  same_state, Ctl, device_state_machine, sm_state_to_device_state, enter_device_state,
  usbctl_next_state_on_event,
}

-- `usbd_info.state` is the device state that belongs to `sm_state`.
abbrev pub IsConsistent : Ctl → Type 0
IsConsistent c = c.state ≡ sm_state_to_device_state c.sm_state

unfoldable pub events : List Event → Ctl → Ctl
unfolding usbctl_next_state_on_event
events [] c = c
events (e ∷ es) c = events es (usbctl_next_state_on_event e c).0

abbrev pub calls : Option ℕ → ℕ
calls (some f) = 1
calls none = 0

pub next-IsConsistent :
    (e : Event) (c : Ctl) → IsConsistent c → IsConsistent (usbctl_next_state_on_event e c).0
unfolding usbctl_next_state_on_event device_state_machine enter_device_state
    sm_state_to_device_state same_state
next-IsConsistent e c h = ground arith

pub events-IsConsistent : (es : List Event) (c : Ctl) → IsConsistent c → IsConsistent (events es c)
unfolding events
events-IsConsistent [] c h = h
events-IsConsistent (e ∷ es) c h = events-IsConsistent es _ (next-IsConsistent e c h)

events-append : (es fs : List Event) (c : Ctl) → events (es ++ fs) c ≡ events fs (events es c)
unfolding events
events-append [] fs c = refl
events-append (e ∷ es) fs c = events-append es fs _

-- An event that the table refuses changes nothing, and one that it takes leaves the client, the
-- callback and the string descriptors alone.
pub next-keeps :
    (e : Event) (c : Ctl)
    → let c' = (usbctl_next_state_on_event e c).0 in
      ((c'.client_name ≡ c.client_name) × (c'.configured_callback ≡ c.configured_callback))
      × (c'.string_desc_array ≡ c.string_desc_array)
unfolding usbctl_next_state_on_event device_state_machine enter_device_state
next-keeps e c = ground arith

-- The device is configured, and the callback, where there is one, was called `n` times since.
abbrev pub IsConfigured : ℕ → Ctl → Ctl → Type 0
IsConfigured n c c' =
    ((c'.sm_state ≡ state_config) × (c'.state ≡ usb_configured)) × (c'.callbacks ≡ c.callbacks + n)

reset-config :
    (c : Ctl)
    → IsConsistent c
    → IsConfigured (calls c.configured_callback) c (events (ev_reset ∷ ev_config ∷ []) c)
unfolding events usbctl_next_state_on_event device_state_machine enter_device_state
    sm_state_to_device_state same_state
reset-config c h = ground arith

-- From every consistent state and after every sequence of events, a reset and then a configuration
-- leave the device configured, and the second one calls the callback once, where there is one.
pub events-reset_config :
    (es : List Event) (c : Ctl)
    → IsConsistent c
    → IsConfigured
        (calls (events es c).configured_callback)
        (events es c)
        (events (es ++ ev_reset ∷ ev_config ∷ []) c)
events-reset_config es c h =
    rw (events-append es) (reset-config (events es c) (events-IsConsistent es c h))

suspended_idem :
    (n : ℕ) (c : Ctl)
    → c.state ≡ usb_suspended
    → IsConsistent c
    → events (replicate n ev_suspend) c ≡ c
unfolding events usbctl_next_state_on_event device_state_machine enter_device_state
    sm_state_to_device_state same_state
suspended_idem zero c s h = refl
suspended_idem (suc n) c s h = ground (arith, suspended_idem n c s h)

suspend_resume_once :
    (c : Ctl)
    → IsConsistent c
    → c.state ≢ usb_suspended
    → events (ev_suspend ∷ ev_resume ∷ []) c ≡ c
unfolding events usbctl_next_state_on_event device_state_machine enter_device_state
    sm_state_to_device_state same_state
suspend_resume_once c h n = ground arith

suspend-state : (c : Ctl) → IsConsistent c → (events (ev_suspend ∷ []) c).state ≡ usb_suspended
unfolding events usbctl_next_state_on_event device_state_machine enter_device_state
    sm_state_to_device_state same_state
suspend-state c h = ground arith

-- From a consistent state that is not suspended, one or more suspensions and then a resumption give
-- that state back as it was, without a call of the callback.
pub suspend_resume :
    (n : ℕ) (c : Ctl)
    → IsConsistent c
    → c.state ≢ usb_suspended
    → events (ev_suspend ∷ replicate n ev_suspend ++ ev_resume ∷ []) c ≡ c
unfolding events
suspend_resume n c h m =
    let held =
      suspended_idem n (events (ev_suspend ∷ []) c) (suspend-state c h)
        (events-IsConsistent (ev_suspend ∷ []) c h) in
    rw
      (
        events-append (ev_suspend ∷ replicate n ev_suspend),
        events-append (ev_suspend ∷ []) (replicate n ev_suspend),
        held,
      )
      (suspend_resume_once c h m)
