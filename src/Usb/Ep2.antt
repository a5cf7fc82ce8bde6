-- ===== src/Usb/Ep2.antt =====
-- src/blob/usb_ep2.c: endpoint 2, which takes the packets of the host.
use gen_blob.Base.{
  ℕ, ◌-◌, ◌/◌, ◌%◌, Bool, true, not, List, [], ◌∷◌, Option, none, some, leb, min, ◌==◌,
  if◌then◌else◌, ◌>>=◌,
}
use gen_blob.Usb.Ep1.{Call, Code, ok, eagain, eintr, ebusy, epipe}
use gen_blob.Loader.Receive.{store_all}

-- The statics; `ep2_buf` is the array that the pointer points to the start of, and `ep2_callback`
-- is never NULL once the endpoint was armed.
pub record Ep2 : Type 0 where
  pub ep2_buf : List ℕ
  pub ep2_len : ℕ
  pub ep2_remain : ℕ
  pub ep2_callback : Bool
  pub rx_pktsize : ℕ

-- What the registers show in an interrupt: the bits PC and SP of UDCCSRB, the counter UDCBCRB, and
-- the words that can be read from UDCDRB until BNEF is off.
pub record Fifo : Type 0 where
  pub pc : Bool
  pub sp : Bool
  pub count : ℕ
  pub words : List ℕ

-- The bytes of words, as they lie in memory.
unfoldable pub bytes_of : List ℕ → List ℕ
bytes_of [] = []
bytes_of (w ∷ ws) = w % 256 ∷ w / 256 % 256 ∷ w / 65536 % 256 ∷ w / 16777216 % 256 ∷ bytes_of ws

unfoldable pub ep2_done : Code → Ep2 → Ep2 × Call
ep2_done flag e =
    let size = e.ep2_len - e.ep2_remain in
    if e.ep2_len == 0
    then (e, none)
    else (record e { ep2_len = 0 }, if e.ep2_callback then some (flag, size) else none)

unfoldable pub ep2_init : Ep2 → Ep2 × Call
unfolding ep2_done
ep2_init e = ep2_done eagain (record e { rx_pktsize = 64 })

unfoldable pub ep2_reset : Ep2 → Ep2 × Call
unfolding ep2_done
ep2_reset e = ep2_done eintr (record e { rx_pktsize = 64 })

-- `*buf++ = UDCDRB` for each word, from `ep2_buf + ep2_len - ep2_remain` on, which lies before the
-- array if more remains than the length.
unfoldable pub drain : List ℕ → Ep2 → Option (List ℕ)
unfolding store_all bytes_of
drain [] e = some e.ep2_buf
drain (w ∷ ws) e =
    if leb e.ep2_remain e.ep2_len
    then store_all e.ep2_buf (e.ep2_len - e.ep2_remain) (bytes_of (w ∷ ws))
    else none

-- A packet without bytes and without PC is only acknowledged.
unfoldable pub ep2_int_hndlr : Fifo → Ep2 → Option (Ep2 × Call)
unfolding drain ep2_done
ep2_int_hndlr f e = if not f.pc then some (e, none) else (do
  let len = min (f.count % 1024) e.ep2_remain
  buf ← drain f.words e
  some (
      ep2_done (if len == 0 then epipe else ok)
        (record e { ep2_buf = buf; ep2_remain = e.ep2_remain - len })))

unfoldable pub ep2_recv : List ℕ → ℕ → Ep2 → Ep2 × Code
ep2_recv buf len e =
    if not (e.ep2_len == 0)
    then (e, ebusy)
    else (record e { ep2_buf = buf; ep2_len = len; ep2_callback = true; ep2_remain = len }, ok)
