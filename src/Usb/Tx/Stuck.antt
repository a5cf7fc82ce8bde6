-- ===== src/Usb/Tx/Stuck.antt =====
-- What happens to the queue when a packet is sent while the bus is not configured.
use gen_blob.Base.{ℕ, zero, suc, false, List, [], some, ◌≡◌, arith}
use gen_blob.Usb.Ep1.{ep1_send}
use gen_blob.Usb.Tx.{Tx, out1_id, ezx_usb_xmit, get_buf, ep1_interrupt}
use gen_blob.Usb.Tx.Queue.{Holds, idle, enqueue}

-- The driver waits for a callback that nothing will make.
record IsStuck (t : Tx) : Type 0 where
  pub current : t.cur_tx_buf ≡ some out1_id
  pub nothing_sent : t.ep1.len ≡ 0

-- Interrupts of endpoint 1, one after the other.
pub interrupts : ℕ → Tx → Tx
interrupts zero t = t
interrupts (suc n) t = interrupts n (ep1_interrupt t)

refused-IsStuck :
    (p : List ℕ) (t : Tx)
    → Holds t []
    → t.ep1.configured ≡ false
    → ((enqueue p t).1 ≡ false) × IsStuck (enqueue p t).0
unfolding get_buf ezx_usb_xmit ep1_send
refused-IsStuck p t (idle c n a b l) conf = ground arith

interrupt-IsStuck : (t : Tx) → IsStuck t → IsStuck (ep1_interrupt t)
unfolding ep1_interrupt
interrupt-IsStuck t s = ground arith

interrupts-IsStuck : (n : ℕ) (t : Tx) → IsStuck t → IsStuck (interrupts n t)
unfolding interrupts
interrupts-IsStuck zero t s = s
interrupts-IsStuck (suc n) t s = interrupts-IsStuck n (ep1_interrupt t) (interrupt-IsStuck t s)

-- A packet that is sent by an idle driver while the bus is not configured is refused, but the
-- driver keeps it as the current one: after any number of interrupts of the endpoint it still
-- waits for that packet, with no byte under way.
pub enqueue_unconfigured :
    (p : List ℕ) (t : Tx) (n : ℕ)
    → Holds t []
    → t.ep1.configured ≡ false
    → ((enqueue p t).1 ≡ false)
      × ((interrupts n (enqueue p t).0).cur_tx_buf ≡ some out1_id)
      × ((interrupts n (enqueue p t).0).ep1.len ≡ 0)
enqueue_unconfigured p t n h conf =
    let (refused, stuck) = refused-IsStuck p t h conf in
    let later = interrupts-IsStuck n (enqueue p t).0 stuck in
    (refused, later.current, later.nothing_sent)
