-- ===== src/Usb/Ep1.antt =====
-- src/blob/usb_ep1.c: endpoint 1, which cuts a buffer into packets for the host.
pub mod Transfer
use gen_blob.Base.{
  ℕ, zero, ◌+◌, ◌-◌, ◌%◌, Bool, true, false, not, List, [], ◌∷◌, ◌++◌, Option, none, some, ltb,
  ◌==◌, if◌then◌else◌, take, drop,
}

-- The values of linux/errno.h that the driver returns (negated) or hands to a callback.
pub data Code : Type 0 where
  ok eagain eintr enodev ebusy eperm einval epipe : Code

-- One filling of the FIFO: its bytes, and whether UDCCSR_SP marked it as a short packet.
pub record Packet : Type 0 where
  pub bytes : List ℕ
  pub short : Bool

-- The static variables; `buf` is what ep1_buf points to, which does not change while it is sent.
-- `configured` is `usbd_info.state == USB_STATE_CONFIGURED`, and `fifo` what went out so far.
pub record Ep1 : Type 0 where
  pub buf : List ℕ
  pub len : ℕ
  pub remain : ℕ
  pub callback : Bool
  pub tx_pktsize : ℕ
  pub configured : Bool
  pub fifo : List Packet

-- A call of `ep1_callback(flag, size)`, which is the last thing that ep1_done does.
abbrev pub Call : Type 0
Call = Option (Code × ℕ)

-- The packet is written by words, and its last one to three bytes one by one.
unfoldable pub ep1_send_packet : Ep1 → Ep1
ep1_send_packet e =
    let p_buf = drop (e.len - e.remain) e.buf in
    let out_size = if ltb e.remain e.tx_pktsize then e.remain else e.tx_pktsize in
    let mod_4_cnt = out_size % 4 in
    let whole_4_cnt = out_size - mod_4_cnt in
    let words = take whole_4_cnt p_buf in
    let bytes = if mod_4_cnt == 0 then [] else take mod_4_cnt (drop whole_4_cnt p_buf) in
    record e {
      remain = e.remain - out_size;
      fifo = e.fifo ++ (record { bytes = words ++ bytes; short = ltb out_size e.tx_pktsize } ∷ []);
    }

unfoldable pub ep1_start : Ep1 → Ep1
unfolding ep1_send_packet
ep1_start e = if e.len == 0 then e else ep1_send_packet e

unfoldable pub ep1_done : Code → Ep1 → Ep1 × Call
ep1_done flag e =
    let size = e.len - e.remain in
    if e.len == 0
    then (e, none)
    else (record e { len = 0 }, if e.callback then some (flag, size) else none)

unfoldable pub ep1_init : Ep1 → Ep1 × Call
unfolding ep1_done
ep1_init e = ep1_done eagain (record e { tx_pktsize = 64 })

unfoldable pub ep1_reset : Ep1 → Ep1 × Call
unfolding ep1_done
ep1_reset e = ep1_done eintr (record e { tx_pktsize = 64 })

unfoldable pub ep1_int_hndlr : Ep1 → Ep1 × Call
unfolding ep1_start ep1_done
ep1_int_hndlr e = if not (e.remain == 0) then (ep1_start e, none) else ep1_done ok e

unfoldable pub ep1_send : List ℕ → ℕ → Ep1 → Ep1 × Code
unfolding ep1_start
ep1_send buf len e =
    if not e.configured
    then (e, enodev)
    else if not (e.len == 0)
    then (e, ebusy)
    else (ep1_start (record e { buf = buf; len = len; callback = true; remain = len }), ok)

unfoldable pub ep1_xmitter_avail : Ep1 → Code
ep1_xmitter_avail e = if not e.configured then enodev else if not (e.len == 0) then ebusy else ok
