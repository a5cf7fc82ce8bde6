-- ===== src/Usb/Control.antt =====
-- src/blob/usb_ctl.c: the state machine of the USB device controller and the public calls around
-- it. What the source does with `usbd_info.stats`, which nothing reads, is left out.
pub mod Machine
pub mod Life
use gen_blob.Usb.Ep1.{Code, ok, ebusy, eperm, einval}
use gen_blob.Base.{
  ℕ, suc, Bool, true, false, not, List, [], ◌∷◌, Option, none, some, ltb, if◌then◌else◌, replicate,
  get_elem?, store, ◌>>=◌,
}

-- The anonymous enumeration of the driver's states (kStateZombie, …).
pub data SmState : Type 0 where
  state_zombie state_zombie_suspend : SmState
  state_default state_default_suspend : SmState
  state_addr state_addr_suspend : SmState
  state_config state_config_suspend : SmState

-- kEvSuspend, … of src/blob/usb_ctl.h
pub data Event : Type 0 where
  ev_suspend ev_reset ev_resume ev_address ev_config ev_de_config : Event

-- USB_STATE_NOTATTACHED, … of src/blob/usb_ctl.h
pub data UsbState : Type 0 where
  usb_not_attached usb_attached usb_powered usb_default usb_address : UsbState
  usb_configured usb_suspended : UsbState

-- The table; `none` is kError.
unfoldable pub device_state_machine : SmState → Event → Option SmState
device_state_machine state_zombie ev_suspend = some state_zombie_suspend
device_state_machine state_zombie ev_reset = some state_default
device_state_machine state_zombie ev_resume = some state_zombie
device_state_machine state_zombie _ = none
device_state_machine state_zombie_suspend ev_suspend = some state_zombie_suspend
device_state_machine state_zombie_suspend ev_reset = some state_default
device_state_machine state_zombie_suspend ev_resume = some state_zombie
device_state_machine state_zombie_suspend _ = none
device_state_machine state_default ev_suspend = some state_default_suspend
device_state_machine state_default ev_reset = some state_default
device_state_machine state_default ev_resume = some state_default
device_state_machine state_default ev_address = some state_addr
device_state_machine state_default ev_config = some state_config
device_state_machine state_default ev_de_config = none
device_state_machine state_default_suspend ev_suspend = some state_default_suspend
device_state_machine state_default_suspend ev_reset = some state_default
device_state_machine state_default_suspend ev_resume = some state_default
device_state_machine state_default_suspend _ = none
device_state_machine state_addr ev_suspend = some state_addr_suspend
device_state_machine state_addr ev_reset = some state_default
device_state_machine state_addr ev_resume = some state_addr
device_state_machine state_addr ev_address = none
device_state_machine state_addr ev_config = some state_config
device_state_machine state_addr ev_de_config = none
device_state_machine state_addr_suspend ev_suspend = some state_addr_suspend
device_state_machine state_addr_suspend ev_reset = some state_default
device_state_machine state_addr_suspend ev_resume = some state_addr
device_state_machine state_addr_suspend _ = none
device_state_machine state_config ev_suspend = some state_config_suspend
device_state_machine state_config ev_reset = some state_default
device_state_machine state_config ev_resume = some state_config
device_state_machine state_config ev_address = none
device_state_machine state_config ev_config = none
device_state_machine state_config ev_de_config = some state_default
device_state_machine state_config_suspend ev_suspend = some state_config_suspend
device_state_machine state_config_suspend ev_reset = some state_default
device_state_machine state_config_suspend ev_resume = some state_config
device_state_machine state_config_suspend _ = none

unfoldable pub sm_state_to_device_state : SmState → UsbState
sm_state_to_device_state state_zombie = usb_powered
sm_state_to_device_state state_zombie_suspend = usb_suspended
sm_state_to_device_state state_default = usb_default
sm_state_to_device_state state_default_suspend = usb_suspended
sm_state_to_device_state state_addr = usb_address
sm_state_to_device_state state_addr_suspend = usb_suspended
sm_state_to_device_state state_config = usb_configured
sm_state_to_device_state state_config_suspend = usb_suspended

-- The tests `==` and `!=` on two states of the device.
unfoldable pub same_state : UsbState → UsbState → Bool
same_state usb_not_attached usb_not_attached = true
same_state usb_attached usb_attached = true
same_state usb_powered usb_powered = true
same_state usb_default usb_default = true
same_state usb_address usb_address = true
same_state usb_configured usb_configured = true
same_state usb_suspended usb_suspended = true
same_state _ _ = false

-- The statics and `usbd_info`; a pointer is an `Option`, `none` for NULL, that to a descriptor its
-- bytes. `callbacks` counts the calls of `configured_callback`.
pub record Ctl : Type 0 where
  pub sm_state : SmState
  pub state : UsbState
  pub client_name : Option ℕ
  pub configured_callback : Option ℕ
  pub string_desc_array : List (Option (List ℕ))
  pub callbacks : ℕ

is_null {ℓ} : {A : Type ℓ} → Option A → Bool
is_null none = true
is_null (some x) = false

-- The body of `if (usbd_info.state != next_device_state)`; the two notifications it ends with do
-- nothing (src/blob/usb_ep1.c, src/blob/usb_ep2.c).
unfoldable pub enter_device_state : UsbState → Ctl → Ctl
unfolding same_state is_null
enter_device_state next c =
    if same_state c.state next
    then c
    else if is_null c.configured_callback
    then record c { state = next }
    else if not (same_state next usb_configured)
    then record c { state = next }
    else if same_state c.state usb_suspended
    then record c { state = next }
    else record c { state = next; callbacks = suc c.callbacks }

follow : Option SmState → Ctl → Ctl × Option SmState
unfolding enter_device_state sm_state_to_device_state
follow none c = (c, none)
follow (some next) c =
    (enter_device_state (sm_state_to_device_state next) (record c { sm_state = next }), some next)

unfoldable pub usbctl_next_state_on_event : Event → Ctl → Ctl × Option SmState
unfolding follow device_state_machine
usbctl_next_state_on_event event c = follow (device_state_machine c.sm_state event) c

abbrev pub max_string_desc : ℕ
max_string_desc = 16

-- The bytes of the descriptor of the languages: its length, USB_DESC_STRING, and 0x409.
abbrev pub sd_zero : List ℕ
sd_zero = 4 ∷ 3 ∷ 9 ∷ 4 ∷ []

-- With the entry that initialize_descriptors writes; the device descriptor is not kept here.
unfoldable pub pxa_usb_open : ℕ → Ctl → Ctl × Code
unfolding is_null
pxa_usb_open client c = if not (is_null c.client_name) then (c, ebusy) else (
  record c {
    client_name = some client;
    string_desc_array = some sd_zero ∷ replicate 15 none;
    sm_state = state_zombie_suspend;
    state = usb_suspended;
  },
  ok,
)

unfoldable pub pxa_usb_close : Ctl → Ctl × Code
unfolding is_null
pxa_usb_close c =
    if is_null c.client_name then (c, eperm) else (record c { client_name = none }, ok)

-- The controller is enabled; the notifications to the endpoints do nothing.
unfoldable pub pxa_usb_start : Ctl → Code
unfolding is_null
pxa_usb_start c = if is_null c.client_name then eperm else ok

-- `memset(&usbd_info, 0, …)`, and the client "myusb" (the pointer 1). It returns 0 in any case.
unfoldable pub usbctl_init : Ctl → Ctl
unfolding pxa_usb_open
usbctl_init c = (pxa_usb_open 1 (record c { client_name = none; state = usb_not_attached })).0

unfoldable pub pxa_set_configured_callback : Option ℕ → Ctl → Ctl × Option ℕ
pxa_set_configured_callback func c =
    (record c { configured_callback = func }, c.configured_callback)

-- The index is not negative: the callers count up from 0, or take the low byte of wValue.
unfoldable pub pxa_usb_set_string_descriptor : ℕ → Option (List ℕ) → Ctl → Option (Ctl × Code)
pxa_usb_set_string_descriptor i p c =
    if ltb i max_string_desc
    then (do arr ← store c.string_desc_array i p; some (record c { string_desc_array = arr }, ok))
    else some (c, einval)

unfoldable pub pxa_usb_get_string_descriptor : ℕ → Ctl → Option (Option (List ℕ))
pxa_usb_get_string_descriptor i c =
    if ltb i max_string_desc then get_elem? c.string_desc_array i else some none
