-- ===== src/Usb/Driver/Reset.antt =====
-- What a reset of the bus leaves: the driver as the loader needs it.
use gen_blob.Base.{
  ℕ, Bool, true, false, ◌&&◌, List, [], some, ◌≡◌, refl, sym, ap, ◌∙◌, arith, ◌==◌, if◌then◌else◌,
  length, subst,
}
use gen_blob.Usb.Ep1.{ep1_send}
use gen_blob.Usb.Tx.{Tx, ep1_bus_reset, mybuf_reset}
use gen_blob.Usb.Tx.Queue.{Holds, idle}
use gen_blob.Usb.Control.{
  Event, ev_suspend, ev_reset, ev_resume, ev_config, state_default, usb_default, usb_configured,
  same_state, Ctl, usbctl_next_state_on_event, max_string_desc, device_state_machine,
  enter_device_state, sm_state_to_device_state,
}
use gen_blob.Usb.Control.Machine.{IsConsistent, next-IsConsistent, next-keeps}
use gen_blob.Usb.Ep0.{Csr, Ep0, ep0_reset}
use gen_blob.Usb.Ep0.Setup.{IsQuiet, IsDescribed, AreWhole}
use gen_blob.Usb.Ep2.{Fifo, ep2_recv, ep2_reset}
use gen_blob.Usb.Rx.{Rx, rx_callback, run_rx_call, ep2_bus_reset}
use gen_blob.Usb.Rx.Delivery.{waiting}
use gen_blob.Usb.Descriptors.Shown.{described}
use gen_blob.Usb.Driver.{
  Driver, tx_of, set_tx, on_event, bit, ezx_usb_open, usb_mot_open, reset_endpoints, on_reset,
  udc_int_hndlr,
}
use gen_blob.Loader.Device.{FlashPort}

-- What holds between two interrupts.
pub record IsSound {Flash : Type 0} (d : Driver Flash) : Type 0 where
  pub consistent : IsConsistent d.ctl
  pub strings : AreWhole d.ctl.string_desc_array
  pub slots : length d.ctl.string_desc_array ≡ max_string_desc
  pub quiet : IsQuiet d.ep0

-- The driver `d'` is configured and free: it sends nothing, endpoint 2 waits for a packet, endpoint 0
-- can answer the host, and the parser stands where it stood in `d`.
pub record IsReady {Flash : Type 0} (d d' : Driver Flash) : Type 0 where
  pub configured : d'.ctl.state ≡ usb_configured
  pub link : (tx_of d').ep1.configured ≡ true
  pub sends_nothing : Holds (tx_of d') []
  pub receives : d'.rx ≡ waiting 64 d.rx.ep2.ep2_buf d'.rx.parser
  pub parser : d'.rx.parser.0 ≡ d.rx.parser.0
  pub described : IsDescribed d'.desc d'.ctl
  pub sound : IsSound d'
  pub address : d'.ep0.address ≡ 0

-- Without a configuration, the packet that waits is not sent when the current one is given up.
bus_reset-len : (t : Tx) → t.ep1.configured ≡ false → (ep1_bus_reset t).ep1.len ≡ 0
unfolding ep1_bus_reset ep1_send
bus_reset-len t h = ground arith

ep0_reset-IsQuiet : (e : Ep0) → IsQuiet e → IsQuiet (ep0_reset e)
unfolding ep0_reset
ep0_reset-IsQuiet e q = record { state = q.state; flag = q.flag; flushed = q.flushed }

reset-default :
    (c : Ctl)
    → IsConsistent c
    → ((usbctl_next_state_on_event ev_reset c).1 ≡ some state_default)
      × ((usbctl_next_state_on_event ev_reset c).0.sm_state ≡ state_default)
      × ((usbctl_next_state_on_event ev_reset c).0.state ≡ usb_default)
unfolding usbctl_next_state_on_event device_state_machine enter_device_state
    sm_state_to_device_state same_state
reset-default c h = ground arith

config-configured :
    (c : Ctl)
    → IsConsistent c
    → c.sm_state ≡ state_default
    → (usbctl_next_state_on_event ev_config c).0.state ≡ usb_configured
unfolding usbctl_next_state_on_event device_state_machine enter_device_state
    sm_state_to_device_state same_state
config-configured c h s = ground arith

some_bit : (isr0 isr1 : ℕ) → bit 27 isr1 ≡ true → (isr0 == 0) && (isr1 == 0) ≡ false
unfolding bit
some_bit isr0 isr1 h = ground arith

module _ {Flash : Type 0} (port : FlashPort Flash) where
  ep2_bus_reset-some :
      (r : Rx Flash)
      → ep2_bus_reset port r
        ≡ some (record r { ep2 = record r.ep2 { rx_pktsize = 64; ep2_len = 0 } })
  unfolding ep2_bus_reset ep2_reset run_rx_call rx_callback
  ep2_bus_reset-some r = ground arith

  pub on_event-IsSound : (e : Event) (d : Driver Flash) → IsSound d → IsSound (on_event e d).0
  unfolding on_event
  on_event-IsSound e d s =
      let ((name, callback), array) = next-keeps e d.ctl in
      record {
        consistent = next-IsConsistent e d.ctl s.consistent;
        strings = subst AreWhole (sym array) s.strings;
        slots = ap length array ∙ s.slots;
        quiet = s.quiet;
      }

  reset_endpoints-IsReady :
      (udccsr0 : ℕ → Csr) (udcdr0 : ℕ → ℕ) (d : Driver Flash)
      → IsSound d
      → d.ctl.sm_state ≡ state_default
      → (tx_of d).ep1.configured ≡ false
      → (d' : Driver Flash) × (reset_endpoints port udccsr0 udcdr0 d ≡ some d') × IsReady d d'
  unfolding reset_endpoints on_event usb_mot_open ezx_usb_open ep2_recv ep0_reset mybuf_reset
      same_state
  reset_endpoints-IsReady udccsr0 udcdr0 d s start off =
      let t1 = ep1_bus_reset (tx_of d) in
      let rx1 = (set_tx t1 (record d { ep0 = ep0_reset d.ep0 })).rx in
      let c2 = (usbctl_next_state_on_event ev_config d.ctl).0 in
      let ((name, callback), array) = next-keeps ev_config d.ctl in
      let (arr, runs, shown) =
        described d.desc c2 (subst AreWhole (sym array) s.strings) (ap length array ∙ s.slots) in
      let up = config-configured d.ctl s.consistent start in
      let closed = bus_reset-len (tx_of d) off in
      rw (ep2_bus_reset-some rx1, runs)
        (
          _,
          refl,
          record {
            configured = up;
            link = ap (λ x. same_state x usb_configured) up;
            sends_nothing = idle refl refl refl refl closed;
            receives = refl;
            parser = refl;
            described = shown;
            sound = record {
              consistent = next-IsConsistent ev_config d.ctl s.consistent;
              strings = shown.strings;
              slots = shown.slots;
              quiet = ep0_reset-IsQuiet d.ep0 s.quiet;
            };
            address = refl;
          },
        )

  -- The driver `d'` has come from `d` by events of the state machine only.
  record IsSameReceiver (d d' : Driver Flash) : Type 0 where
    sound : IsSound d'
    buf : d'.rx.ep2.ep2_buf ≡ d.rx.ep2.ep2_buf
    parser : d'.rx.parser.0 ≡ d.rx.parser.0

  then_event :
      (b : Bool) (e : Event) (d d' : Driver Flash)
      → IsSameReceiver d d'
      → IsSameReceiver d (if b then (on_event e d').0 else d')
  unfolding on_event
  then_event true e d d' s = record {
    sound = on_event-IsSound e d' s.sound;
    buf = s.buf;
    parser = s.parser;
  }
  then_event false e d d' s = s

  on_reset-IsReady :
      (udccsr0 : ℕ → Csr) (udcdr0 : ℕ → ℕ) (d : Driver Flash)
      → IsSound d
      → (d' : Driver Flash) × (on_reset port udccsr0 udcdr0 (on_event ev_reset d) ≡ some d')
        × IsReady (on_event ev_reset d).0 d'
  unfolding on_reset on_event same_state
  on_reset-IsReady udccsr0 udcdr0 d s =
      let (next, start, state) = reset-default d.ctl s.consistent in
      rw next (
        reset_endpoints-IsReady udccsr0 udcdr0 (on_event ev_reset d).0
          (on_event-IsSound ev_reset d s) start (ap (λ x. same_state x usb_configured) state))

  IsReady-from : {d d1 d' : Driver Flash} → IsSameReceiver d d1 → IsReady d1 d' → IsReady d d'
  IsReady-from {d} {d1} {d'} s r = record {
    configured = r.configured;
    link = r.link;
    sends_nothing = r.sends_nothing;
    receives = r.receives ∙ ap (λ b. waiting 64 b d'.rx.parser) s.buf;
    parser = r.parser ∙ s.parser;
    described = r.described;
    sound = r.sound;
    address = r.address;
  }

  -- From every sound state, also one in which an earlier error has stopped the traffic, an interrupt
  -- with the reset bit returns and leaves the driver configured, with no packet to send, waiting for
  -- one to receive and able to answer on endpoint 0; the parser is not reset.
  pub udc_int_hndlr-IsReady :
      (udccsr0 : ℕ → Csr) (udcdr0 : ℕ → ℕ) (isr0 isr1 : ℕ) (f : Fifo) (more : List Fifo)
      (d : Driver Flash)
      → IsSound d
      → bit 27 isr1 ≡ true
      → (d' : Driver Flash) × (udc_int_hndlr port udccsr0 udcdr0 isr0 isr1 f more d ≡ some d')
        × IsReady d d'
  unfolding udc_int_hndlr
  udc_int_hndlr-IsReady udccsr0 udcdr0 isr0 isr1 f more d s b =
      let start : IsSameReceiver d d = record { sound = s; buf = refl; parser = refl } in
      let first = then_event (bit 28 isr1) ev_suspend d d start in
      let d1 = if bit 28 isr1 then (on_event ev_suspend d).0 else d in
      let second = then_event (bit 29 isr1) ev_resume d d1 first in
      let d2 = if bit 29 isr1 then (on_event ev_resume d1).0 else d1 in
      let (d', runs, ready) = on_reset-IsReady udccsr0 udcdr0 d2 second.sound in
      rw (some_bit isr0 isr1 b, b)
        (d', runs, IsReady-from (then_event true ev_reset d d2 second) ready)
