-- ===== src/Usb/Rx.antt =====
-- src/blob/usb-mot1.c: the packets that endpoint 2 receives, handed to the parser one by one
-- (rx_callback, and the part of ezx_usb_open that arms the endpoint).
pub mod Delivery
pub mod Lost
use gen_blob.Base.{
  ℕ, zero, suc, Bool, true, false, List, [], ◌∷◌, Option, none, some, take, replicate, ◌>>=◌,
}
use gen_blob.Usb.Ep1.{Call, Code, ok}
use gen_blob.Usb.Ep2.{Ep2, Fifo, ep2_recv, ep2_int_hndlr, ep2_reset}
use gen_blob.Loader.Device.{Device, FlashPort, bufsz}
use gen_blob.Loader.Receive.{Receiver, State, parse_data}

abbrev pub usb_rsize : ℕ
usb_rsize = 64

-- `memset(rx_buf->buf, 0, BUFSZ)`
unfoldable pub cleared : List ℕ
cleared = replicate bufsz 0

-- The endpoint, which fills the array of `in`; `in.len`; the parser and what it works on.
pub record Rx (Flash : Type 0) : Type 0 where
  pub ep2 : Ep2
  pub in_len : ℕ
  pub parser : Receiver × Device Flash

module _ {Flash : Type 0} (port : FlashPort Flash) where
  unfoldable pub rx_callback : Code → ℕ → Rx Flash → Option (Rx Flash)
  rx_callback ok size r = do
    parser ← parse_data port (take size r.ep2.ep2_buf) r.parser
    some (record { ep2 = (ep2_recv cleared usb_rsize r.ep2).0; in_len = 0; parser = parser })
  rx_callback _ size r = some r

  unfoldable pub run_rx_call : Call → Rx Flash → Option (Rx Flash)
  run_rx_call none r = some r
  run_rx_call (some (flag, size)) r = rx_callback flag size r

  -- The interrupt of endpoint 2.
  unfoldable pub ep2_interrupt : Fifo → Rx Flash → Option (Rx Flash)
  ep2_interrupt f r = do (e, call) ← ep2_int_hndlr f r.ep2; run_rx_call call (record r { ep2 = e })

  unfoldable pub ep2_interrupts : List Fifo → Rx Flash → Option (Rx Flash)
  ep2_interrupts [] r = some r
  ep2_interrupts (f ∷ fs) r = do r' ← ep2_interrupt f r; ep2_interrupts fs r'

  unfoldable pub ep2_bus_reset : Rx Flash → Option (Rx Flash)
  ep2_bus_reset r = let (e, call) = ep2_reset r.ep2 in run_rx_call call (record r { ep2 = e })
