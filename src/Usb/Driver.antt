-- ===== src/Usb/Driver.antt =====
-- The interrupt of the USB controller (udc_int_hndlr of src/blob/usb_ctl.c), with all that hangs on
-- it: the state machine, the three endpoints, and the driver of src/blob/usb-mot1.c.
pub mod Reset
pub mod Live
use gen_blob.Base.{
  ℕ, ◌/◌, ◌%◌, ◌^◌, Bool, true, false, ◌&&◌, List, [], Option, none, some, ◌==◌, if◌then◌else◌,
  ◌>>=◌,
}
use gen_blob.Usb.Ep1.{Ep1, Code, ok, eperm}
use gen_blob.Usb.Tx.{Tx, mybuf_reset, ep1_interrupt, ep1_bus_reset}
use gen_blob.Usb.Control.{
  SmState, Event, ev_suspend, ev_reset, ev_resume, ev_config, usb_configured, same_state, Ctl,
  usbctl_next_state_on_event,
}
use gen_blob.Usb.Ep0.{Csr, Ep0, Desc, ep0_reset, sh_setup_begin}
use gen_blob.Usb.Ep2.{Fifo, ep2_recv}
use gen_blob.Usb.Rx.{Rx, usb_rsize, ep2_interrupt, ep2_interrupts, ep2_bus_reset}
use gen_blob.Usb.Descriptors.{ezx_str, set_strings, set_product, set_configuration}
use gen_blob.Loader.Device.{Device, FlashPort}

pub record Driver (Flash : Type 0) : Type 0 where
  pub ctl : Ctl
  pub desc : Desc
  pub ep0 : Ep0
  pub rx : Rx Flash

abbrev pub tx_of : {Flash : Type 0} → Driver Flash → Tx
tx_of d = d.rx.parser.1.tx

-- The part that the parser answers through, behind the endpoint that feeds it.
abbrev pub set_tx : {Flash : Type 0} → Tx → Driver Flash → Driver Flash
set_tx t d = record d {
  rx = record d.rx { parser = (d.rx.parser.0, record d.rx.parser.1 { tx = t }) };
}

-- Endpoint 1 looks at `usbd_info.state`.
abbrev pub set_ctl : {Flash : Type 0} → Ctl → Driver Flash → Driver Flash
set_ctl c d =
    let t = tx_of d in
    let e : Ep1 = record t.ep1 { configured = same_state c.state usb_configured } in
    set_tx (record t { ep1 = e }) (record d { ctl = c })

unfoldable pub on_event : {Flash : Type 0} → Event → Driver Flash → Driver Flash × Option SmState
on_event e d = let (c, next) = usbctl_next_state_on_event e d.ctl in (set_ctl c d, next)

unfoldable pub bit : ℕ → ℕ → Bool
bit n isr = isr / 2 ^ n % 2 == 1

-- The buffers are free, and endpoint 2 is armed if it was not.
unfoldable pub ezx_usb_open : {Flash : Type 0} → Driver Flash → Driver Flash
ezx_usb_open d =
    let t = mybuf_reset (tx_of d) in
    let d' = set_tx (record t { cur_tx_buf = none; next_tx_buf = none }) d in
    record d' {
      desc = set_configuration d.desc;
      rx = record d'.rx { in_len = 0; ep2 = (ep2_recv d.rx.ep2.ep2_buf usb_rsize d.rx.ep2).0 };
    }

unfoldable pub usb_mot_open : {Flash : Type 0} → Driver Flash → Option (Driver Flash)
usb_mot_open d = do
  c ← set_strings ezx_str 1 d.ctl
  some (ezx_usb_open (record d { ctl = c; desc = set_product d.desc }))

module _ {Flash : Type 0} (port : FlashPort Flash) (udccsr0 : ℕ → Csr) (udcdr0 : ℕ → ℕ) where
  -- The calls after a reset that the state machine takes.
  unfoldable pub reset_endpoints : Driver Flash → Option (Driver Flash)
  reset_endpoints d = do
    let d1 = set_tx (ep1_bus_reset (tx_of d)) (record d { ep0 = ep0_reset d.ep0 })
    rx ← ep2_bus_reset port d1.rx
    usb_mot_open (on_event ev_config (record d1 { rx = rx })).0

  unfoldable pub on_reset : Driver Flash × Option SmState → Option (Driver Flash)
  on_reset (d, none) = some d
  on_reset (d, some next) = reset_endpoints d

  unfoldable pub ep2_turn : Bool → Fifo → Driver Flash → Option (Driver Flash)
  ep2_turn false f d = some d
  ep2_turn true f d = do rx ← ep2_interrupt port f d.rx; some (record d { rx = rx })

  unfoldable pub ep0_turn : Bool → Driver Flash → Option (Driver Flash)
  ep0_turn false d = some d
  ep0_turn true d = do
    e ← sh_setup_begin udccsr0 udcdr0 d.desc d.ctl d.ep0
    some (record d { ep0 = e })

  -- The interrupts of the endpoints; `more` is what endpoint 2 shows while BNEF is on.
  unfoldable pub endpoints : ℕ → Fifo → List Fifo → Driver Flash → Option (Driver Flash)
  endpoints isr0 f more d = do
    d1 ← ep0_turn (bit 0 isr0) d
    let d2 = if bit 2 isr0 then set_tx (ep1_interrupt (tx_of d1)) d1 else d1
    d3 ← ep2_turn (bit 4 isr0) f d2
    rx ← ep2_interrupts port more d3.rx
    some (record d3 { rx = rx })

  -- IRRS is bit 27 of UDCISR1, IRSU bit 28, IRRU bit 29; the change of the configuration (bit 31)
  -- and the error bits are only acknowledged.
  unfoldable pub udc_int_hndlr : ℕ → ℕ → Fifo → List Fifo → Driver Flash → Option (Driver Flash)
  udc_int_hndlr isr0 isr1 f more d =
      let d1 = if bit 28 isr1 then (on_event ev_suspend d).0 else d in
      let d2 = if bit 29 isr1 then (on_event ev_resume d1).0 else d1 in
      if isr0 == 0 && isr1 == 0
      then some d
      else if bit 27 isr1
      then on_reset (on_event ev_reset d2)
      else endpoints isr0 f more d2

  unfoldable pub pxa_usb_stop : Driver Flash → Option (Driver Flash × Code)
  pxa_usb_stop d = elim d.ctl.client_name [
    | none ↦ some (d, eperm)
    | some client ↦ (do
      let d1 = set_tx (ep1_bus_reset (tx_of d)) d
      rx ← ep2_bus_reset port d1.rx
      some (record d1 { rx = rx }, ok))
  ]
