-- ===== src/Usb/Tx.antt =====
-- src/blob/usb-mot1.c: the two output buffers of src/blob/bl_parser.c, the one that endpoint 1
-- sends and the one that waits.
pub mod Queue
pub mod Interrupt
pub mod Stuck
use gen_blob.Base.{
  ℕ, zero, ◌+◌, Bool, true, false, List, [], Option, none, some, ◌==◌, if◌then◌else◌,
}
use gen_blob.Usb.Ep1.{Ep1, Call, Code, ok, ep1_send, ep1_int_hndlr, ep1_init, ep1_reset}

-- `struct mybuf`. Of the array, the bytes that were written last: no reader goes behind `len`.
pub record MyBuf : Type 0 where
  pub buf : List ℕ
  pub len : ℕ

-- A `struct mybuf *` to an output buffer.
pub data BufId : Type 0 where
  out1_id out2_id : BufId

pub record Tx : Type 0 where
  pub out1 : MyBuf
  pub out2 : MyBuf
  pub cur_tx_buf : Option BufId
  pub next_tx_buf : Option BufId
  pub ep1 : Ep1

-- `get_buf(1)`
unfoldable pub get_buf : Tx → Option BufId
get_buf t = if t.out1.len == 0 then some out1_id else if t.out2.len == 0 then some out2_id else none

unfoldable pub mybuf_reset : Tx → Tx
mybuf_reset t = record t {
  out1 = record { buf = t.out1.buf; len = 0 };
  out2 = record { buf = t.out2.buf; len = 0 };
}

abbrev pub buf_at : BufId → Tx → MyBuf
buf_at out1_id t = t.out1
buf_at out2_id t = t.out2

abbrev pub set_buf : BufId → MyBuf → Tx → Tx
set_buf out1_id b t = record t { out1 = b }
set_buf out2_id b t = record t { out2 = b }

abbrev is_ok : Code → Bool
is_ok ok = true
is_ok _ = false

-- `ep1_send(b->buf, b->len, tx_callback)`
abbrev pub submit : BufId → Tx → Tx × Code
submit b t =
    let m = buf_at b t in
    let (e, state) = ep1_send m.buf m.len t.ep1 in (record t { ep1 = e }, state)

queue_or_send : Option BufId → Option BufId → BufId → Tx → Tx × Bool
unfolding ep1_send
queue_or_send (some _) (some _) out t = (t, false)
queue_or_send (some _) none out t = (record t { next_tx_buf = some out }, true)
queue_or_send none next out t =
    let (t', state) = submit out (record t { cur_tx_buf = some out }) in (t', is_ok state)

unfoldable pub ezx_usb_xmit : BufId → Tx → Tx × Bool
unfolding queue_or_send
ezx_usb_xmit out t = queue_or_send t.cur_tx_buf t.next_tx_buf out t

-- The second half of tx_callback, on the buffer that waits.
send_next : Option BufId → Tx → Tx
unfolding ep1_send
send_next none t = t
send_next (some b) t = (submit b (record t { cur_tx_buf = some b; next_tx_buf = none })).0

free_current : Option BufId → Tx → Tx
unfolding send_next
free_current none t = t
free_current (some b) t =
    send_next t.next_tx_buf
      (record (set_buf b (record { buf = (buf_at b t).buf; len = 0 }) t) { cur_tx_buf = none })

unfoldable pub tx_callback : Tx → Tx
unfolding free_current
tx_callback t = free_current t.cur_tx_buf t

-- The callback that an endpoint routine has asked for, made at its end.
abbrev pub run_call : Call → Tx → Tx
run_call none t = t
run_call (some _) t = tx_callback t

-- The interrupt of endpoint 1.
unfoldable pub ep1_interrupt : Tx → Tx
unfolding ep1_int_hndlr tx_callback
ep1_interrupt t = let (e, call) = ep1_int_hndlr t.ep1 in run_call call (record t { ep1 = e })

unfoldable pub ep1_bus_reset : Tx → Tx
unfolding ep1_reset tx_callback
ep1_bus_reset t = let (e, call) = ep1_reset t.ep1 in run_call call (record t { ep1 = e })
