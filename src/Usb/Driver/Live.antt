-- ===== src/Usb/Driver/Live.antt =====
-- What every interrupt of the USB controller keeps.
use mathlib.Core.Option.{none-ne-some, some-injective}
use gen_blob.Base.{
  ℕ, Bool, true, false, ◌&&◌, List, Option, none, some, ◌≡◌, ◌⊎◌, inl, inr, refl, sym, ap, subst,
  ◌∙◌, ◌==◌, length, if◌then◌else◌, Bool-cases, Option-cases, ◌>>=◌,
}
use gen_blob.Usb.Tx.{ep1_interrupt}
use gen_blob.Usb.Control.{Event, ev_suspend, ev_resume}
use gen_blob.Usb.Control.Machine.{next-keeps}
use gen_blob.Usb.Ep0.{Csr}
use gen_blob.Usb.Ep0.Setup.{IsDescribed, AreWhole, sh_setup_begin-IsQuiet}
use gen_blob.Usb.Ep2.{Fifo}
use gen_blob.Usb.Rx.{Rx, ep2_interrupt, ep2_interrupts}
use gen_blob.Usb.Driver.{
  Driver, tx_of, set_tx, on_event, bit, ep0_turn, ep2_turn, endpoints, udc_int_hndlr,
}
use gen_blob.Usb.Driver.Reset.{IsSound, on_event-IsSound, udc_int_hndlr-IsReady}
use gen_blob.Loader.Device.{FlashPort}

-- A sound driver whose descriptors endpoint 0 can send.
pub record IsLive {Flash : Type 0} (d : Driver Flash) : Type 0 where
  pub sound : IsSound d
  pub described : IsDescribed d.desc d.ctl

module _ {Flash : Type 0} (port : FlashPort Flash) (udccsr0 : ℕ → Csr) (udcdr0 : ℕ → ℕ) where
  on_event-IsLive : (e : Event) (d : Driver Flash) → IsLive d → IsLive (on_event e d).0
  unfolding on_event
  on_event-IsLive e d l =
      let ((name, callback), array) = next-keeps e d.ctl in
      record {
        sound = on_event-IsSound port e d l.sound;
        described = record {
          dev = l.described.dev;
          configs = l.described.configs;
          strings = subst AreWhole (sym array) l.described.strings;
          slots = ap length array ∙ l.described.slots;
        };
      }

  maybe_event-IsLive :
      (b : Bool) (e : Event) (d : Driver Flash)
      → IsLive d
      → IsLive (if b then (on_event e d).0 else d)
  maybe_event-IsLive true e d l = on_event-IsLive e d l
  maybe_event-IsLive false e d l = l

  -- Only the receiver, and what hangs on it, differs.
  set_rx-IsLive : (rx : Rx Flash) (d : Driver Flash) → IsLive d → IsLive (record d { rx = rx })
  set_rx-IsLive rx d l = record {
    sound = record {
      consistent = l.sound.consistent;
      strings = l.sound.strings;
      slots = l.sound.slots;
      quiet = l.sound.quiet;
    };
    described = l.described;
  }

  ep0_turn-IsLive :
      (b : Bool) (d : Driver Flash)
      → IsLive d
      → (d' : Driver Flash) × (ep0_turn port udccsr0 udcdr0 b d ≡ some d') × IsLive d'
  unfolding ep0_turn
  ep0_turn-IsLive false d l = (d, refl, l)
  ep0_turn-IsLive true d l =
      let (e, runs, quiet) =
        sh_setup_begin-IsQuiet udccsr0 udcdr0 d.desc d.ctl d.ep0 l.described l.sound.quiet in
      (
        record d { ep0 = e },
        rw runs refl,
        record {
          sound = record {
            consistent = l.sound.consistent;
            strings = l.sound.strings;
            slots = l.sound.slots;
            quiet = quiet;
          };
          described = l.described;
        },
      )

  abbrev Keeps : Option (Driver Flash) → Type 0
  Keeps o = (o ≡ none) ⊎ ((d' : Driver Flash) × (o ≡ some d') × IsLive d')

  ep2_turn-Keeps :
      (b : Bool) (f : Fifo) (d : Driver Flash)
      → IsLive d
      → Keeps (ep2_turn port udccsr0 udcdr0 b f d)
  unfolding ep2_turn
  ep2_turn-Keeps false f d l = inr (d, refl, l)
  ep2_turn-Keeps true f d l = elim (Option-cases (ep2_interrupt port f d.rx)) [
    | inl e ↦ inl (rw e refl)
    | inr (rx, e) ↦ inr (record d { rx = rx }, rw e refl, set_rx-IsLive rx d l)
  ]

  drained-Keeps :
      (more : List Fifo) (d : Driver Flash)
      → IsLive d
      → Keeps (do rx ← ep2_interrupts port more d.rx; some (record d { rx = rx }))
  drained-Keeps more d l = elim (Option-cases (ep2_interrupts port more d.rx)) [
    | inl e ↦ inl (rw e refl)
    | inr (rx, e) ↦ inr (record d { rx = rx }, rw e refl, set_rx-IsLive rx d l)
  ]

  maybe_ep1-IsLive :
      (b : Bool) (d : Driver Flash)
      → IsLive d
      → IsLive (if b then set_tx (ep1_interrupt (tx_of d)) d else d)
  maybe_ep1-IsLive true d l = set_rx-IsLive (set_tx (ep1_interrupt (tx_of d)) d).rx d l
  maybe_ep1-IsLive false d l = l

  endpoints-Keeps :
      (isr0 : ℕ) (f : Fifo) (more : List Fifo) (d : Driver Flash)
      → IsLive d
      → Keeps (endpoints port udccsr0 udcdr0 isr0 f more d)
  unfolding endpoints
  endpoints-Keeps isr0 f more d l =
      let (d1, first, l1) = ep0_turn-IsLive (bit 0 isr0) d l in
      let d2 = if bit 2 isr0 then set_tx (ep1_interrupt (tx_of d1)) d1 else d1 in
      let l2 = maybe_ep1-IsLive (bit 2 isr0) d1 l1 in
      elim (ep2_turn-Keeps (bit 4 isr0) f d2 l2) [
        | inl e ↦ inl (rw (first, e) refl)
        | inr (d3, e, l3) ↦ rw (first, e) (drained-Keeps more d3 l3)
      ]

  handled :
      (isr0 isr1 : ℕ) (f : Fifo) (more : List Fifo) (d : Driver Flash)
      → IsLive d
      → Keeps (udc_int_hndlr port udccsr0 udcdr0 isr0 isr1 f more d)
  unfolding udc_int_hndlr
  handled isr0 isr1 f more d l =
      let l1 = maybe_event-IsLive (bit 28 isr1) ev_suspend d l in
      let d1 = if bit 28 isr1 then (on_event ev_suspend d).0 else d in
      let l2 = maybe_event-IsLive (bit 29 isr1) ev_resume d1 l1 in
      let d2 = if bit 29 isr1 then (on_event ev_resume d1).0 else d1 in
      elim (Bool-cases (bit 27 isr1)) [
        | inl b ↦
            let (d', runs, r) =
              udc_int_hndlr-IsReady port udccsr0 udcdr0 isr0 isr1 f more d l.sound b in
            inr (d', runs, record { sound = r.sound; described = r.described })
        | inr b ↦ elim (Bool-cases ((isr0 == 0) && (isr1 == 0))) [
          | inl z ↦ rw z (inr (d, refl, l))
          | inr z ↦ rw (z, b) (endpoints-Keeps isr0 f more d2 l2)
        ]
      ]

  -- An interrupt that returns, whatever it shows, leaves the device state that of the state machine,
  -- the descriptors ones that endpoint 0 can send, and no transfer of endpoint 0 under way, if they
  -- were so before it.
  pub udc_int_hndlr-IsLive :
      (isr0 isr1 : ℕ) (f : Fifo) (more : List Fifo) (d d' : Driver Flash)
      → IsLive d
      → udc_int_hndlr port udccsr0 udcdr0 isr0 isr1 f more d ≡ some d'
      → IsLive d'
  udc_int_hndlr-IsLive isr0 isr1 f more d d' l h = elim (handled isr0 isr1 f more d l) [
    | inl e ↦ absurd (none-ne-some d' (sym e ∙ h))
    | inr (d1, e, l1) ↦ subst IsLive (some-injective d1 d' (sym e ∙ h)) l1
  ]
