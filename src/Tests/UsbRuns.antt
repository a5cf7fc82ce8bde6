-- ===== src/Tests/UsbRuns.antt =====
-- Runs of the USB driver.
use gen_blob.Base.{
  ℕ, ◌<◌, Bool, true, false, List, [], ◌∷◌, ◌++◌, none, some, ◌≡◌, refl, arith, replicate,
}
use gen_blob.Text.{IsString}
use gen_blob.Loader.Receive.Message.{Lacks-IsString}
use gen_blob.Loader.Send.{parse_send_packet}
use gen_blob.Loader.Send.Frame.{frame, parse_send_packet-enqueue}
use gen_blob.Usb.Ep1.{Ep1, ok, ep1_send, ep1_int_hndlr}
use gen_blob.Usb.Ep1.Transfer.{transmit, Completes, transmit-ep1_send}
use gen_blob.Usb.Tx.{Tx, ezx_usb_xmit, get_buf, ep1_interrupt}
use gen_blob.Usb.Tx.Queue.{Holds, idle, enqueue, enqueue-Holds}
use gen_blob.Usb.Tx.Interrupt.{interrupt-Holds, interrupt-Holds_done}

abbrev pub ep1_up : Bool → Ep1
ep1_up configured = record {
  buf = [];
  len = 0;
  remain = 0;
  callback = false;
  tx_pktsize = 64;
  configured = configured;
  fifo = [];
}

abbrev pub idle_tx : Bool → Tx
idle_tx configured = record {
  out1 = record { buf = []; len = 0 };
  out2 = record { buf = []; len = 0 };
  cur_tx_buf = none;
  next_tx_buf = none;
  ep1 = ep1_up configured;
}

-- A packet that takes two fillings of the FIFO.
abbrev long : List ℕ
long = replicate 65 7

abbrev short : List ℕ
short = 2 ∷ b'R' ∷ 3 ∷ []

idle-Holds : (configured : Bool) → Holds (idle_tx configured) []
idle-Holds configured = idle refl refl refl refl refl

transmit-ep1_send_example :
    ((ep1_send long 65 (ep1_up true)).1 ≡ ok)
    × Completes [] long 65 (transmit 66 (ep1_send long 65 (ep1_up true)).0)
transmit-ep1_send_example = transmit-ep1_send long 65 (ep1_up true) refl refl refl (omega arith)

abbrev one_tx : Tx
one_tx = (enqueue long (idle_tx true)).0

abbrev two_tx : Tx
two_tx = (enqueue short one_tx).0

enqueue-Holds_example :
    ((enqueue long (idle_tx true)).1 ≡ true)
    × Holds (enqueue long (idle_tx true)).0 ([] ++ long ∷ [])
enqueue-Holds_example =
    enqueue-Holds long (idle_tx true) (idle-Holds true) refl (omega arith) (omega arith)

one_configured : one_tx.ep1.configured ≡ true
unfolding get_buf ezx_usb_xmit ep1_send
one_configured = refl

two_held : Holds two_tx (long ∷ short ∷ [])
two_held =
    (enqueue-Holds short one_tx
      (enqueue-Holds long (idle_tx true) (idle-Holds true) refl (omega arith) (omega arith)).1
      one_configured (omega arith) (omega arith)).1

two_state : (two_tx.ep1.configured ≡ true) × (0 < two_tx.ep1.remain)
unfolding get_buf ezx_usb_xmit ep1_send
two_state = (refl, omega arith)

sent_state :
    ((ep1_interrupt two_tx).ep1.configured ≡ true) × ((ep1_interrupt two_tx).ep1.remain ≡ 0)
unfolding get_buf ezx_usb_xmit ep1_send ep1_interrupt ep1_int_hndlr
sent_state = (refl, refl)

interrupt-Holds_done_example : Holds (ep1_interrupt (ep1_interrupt two_tx)) (short ∷ [])
interrupt-Holds_done_example =
    interrupt-Holds_done (ep1_interrupt two_tx)
      (interrupt-Holds two_tx two_held two_state.0 two_state.1) sent_state.0 sent_state.1

err-IsString : IsString (b'E' ∷ b'R' ∷ b'R' ∷ 0 ∷ []) (b'E' ∷ b'R' ∷ b'R' ∷ [])
err-IsString = Lacks-IsString (b'E' ∷ b'R' ∷ b'R' ∷ []) [] (ground arith)

parse_send_packet-enqueue_example :
    parse_send_packet (b'E' ∷ b'R' ∷ b'R' ∷ 0 ∷ []) (0x80 ∷ 0 ∷ []) 1 (idle_tx true)
    ≡ some (enqueue (frame (b'E' ∷ b'R' ∷ b'R' ∷ []) (0x80 ∷ [])) (idle_tx true))
parse_send_packet-enqueue_example =
    parse_send_packet-enqueue (0x80 ∷ 0 ∷ []) 1 (idle_tx true) err-IsString (omega arith)
      (omega arith)
