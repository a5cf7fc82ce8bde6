-- ===== src/Usb/Rx/Lost.antt =====
-- What endpoint 2 does after a packet without bytes (ep2_int_hndlr of src/blob/usb_ep2.c and
-- rx_callback of src/blob/usb-mot1.c): it is not armed again.
use gen_blob.Base.{ℕ, ◌%◌, true, List, [], ◌∷◌, none, ◌≡◌, refl}
use gen_blob.Usb.Ep2.{Fifo, drain, ep2_done, ep2_int_hndlr}
use gen_blob.Usb.Rx.{rx_callback, run_rx_call, ep2_interrupt, ep2_interrupts}
use gen_blob.Usb.Rx.Delivery.{waiting}
use gen_blob.Loader.Device.{Device, FlashPort}
use gen_blob.Loader.Receive.{Receiver}

module _ {Flash : Type 0} (port : FlashPort Flash) where
  -- A complete packet whose counter is a multiple of 1024 and that has no words, and then a packet
  -- with a word: that word is written before the start of the array.
  pub ep2_interrupts_lost :
      (n w : ℕ) (buf : List ℕ) (empty f : Fifo) (ws : List ℕ) (fs : List Fifo)
      (s : Receiver × Device Flash)
      → empty.pc ≡ true
      → empty.count % 1024 ≡ 0
      → empty.words ≡ []
      → f.pc ≡ true
      → f.words ≡ w ∷ ws
      → ep2_interrupts port (empty ∷ f ∷ fs) (waiting n buf s) ≡ none
  unfolding ep2_interrupts ep2_interrupt run_rx_call rx_callback ep2_int_hndlr ep2_done drain
  ep2_interrupts_lost n w buf empty f ws fs s p c z q r = rw (p, c, z, q, r) refl
