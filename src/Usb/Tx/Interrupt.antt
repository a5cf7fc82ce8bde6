-- ===== src/Usb/Tx/Interrupt.antt =====
-- The interrupt of endpoint 1 on the queue: a packet that is out makes room and starts the next.
use gen_blob.Base.{ℕ, ◌<◌, true, List, [], ◌∷◌, none, some, ◌≡◌, refl, arith}
use gen_blob.Usb.Ep1.{ep1_send, ep1_start}
use gen_blob.Usb.Tx.{Tx, BufId, out1_id, out2_id, buf_at, set_buf, ep1_interrupt}
use gen_blob.Usb.Tx.Queue.{Sends, Holds, idle, one, two, other, ep1_start-keeps}

abbrev rest_of : List (List ℕ) → List (List ℕ)
rest_of [] = []
rest_of (p ∷ q) = q

-- The driver after the last packet was sent from the buffer `b`.
abbrev finished : BufId → Tx → Tx
finished b t = record (set_buf b (record { buf = (buf_at b t).buf; len = 0 }) t) {
  cur_tx_buf = none;
  ep1 = record t.ep1 { len = 0 };
}

-- The driver that then goes on with the buffer `c`.
abbrev resumed : BufId → BufId → Tx → Tx
resumed b c t = record (set_buf b (record { buf = (buf_at b t).buf; len = 0 }) t) {
  cur_tx_buf = some c;
  next_tx_buf = none;
  ep1 = ep1_start (record t.ep1 {
    buf = (buf_at c t).buf;
    len = (buf_at c t).len;
    callback = true;
    remain = (buf_at c t).len;
  });
}

interrupt_more : (t : Tx) → 0 < t.ep1.remain → ep1_interrupt t ≡ record t { ep1 = ep1_start t.ep1 }
unfolding ep1_interrupt
interrupt_more t h = ground arith

interrupt_idle : (t : Tx) → t.ep1.remain ≡ 0 → t.ep1.len ≡ 0 → ep1_interrupt t ≡ t
unfolding ep1_interrupt
interrupt_idle t r h = ground arith

interrupt_one :
    (b : BufId) (t : Tx)
    → t.ep1.remain ≡ 0
    → Sends b t
    → t.next_tx_buf ≡ none
    → ep1_interrupt t ≡ finished b t
unfolding ep1_interrupt
interrupt_one out1_id t r s n = ground arith
interrupt_one out2_id t r s n = ground arith

interrupt_two :
    (b : BufId) (t : Tx)
    → t.ep1.remain ≡ 0
    → Sends b t
    → t.next_tx_buf ≡ some (other b)
    → t.ep1.configured ≡ true
    → ep1_interrupt t ≡ resumed b (other b) t
unfolding ep1_interrupt ep1_send
interrupt_two out1_id t r s n c = ground arith
interrupt_two out2_id t r s n c = ground arith

Sends-ep1_start : (b : BufId) (t : Tx) → Sends b t → Sends b (record t { ep1 = ep1_start t.ep1 })
Sends-ep1_start out1_id t s = ground (arith, ep1_start-keeps t.ep1)
Sends-ep1_start out2_id t s = ground (arith, ep1_start-keeps t.ep1)

resumed-Sends :
    (b : BufId) (t : Tx) → 0 < (buf_at (other b) t).len → Sends (other b) (resumed b (other b) t)
resumed-Sends out1_id t h =
    let (buf, len, called, conf) =
      ep1_start-keeps (record t.ep1 {
        buf = t.out2.buf;
        len = t.out2.len;
        callback = true;
        remain = t.out2.len;
      }) in
    record { is_current = refl; in_use = h; same_len = len; same_buf = buf; called_back = called }
resumed-Sends out2_id t h =
    let (buf, len, called, conf) =
      ep1_start-keeps (record t.ep1 {
        buf = t.out1.buf;
        len = t.out1.len;
        callback = true;
        remain = t.out1.len;
      }) in
    record { is_current = refl; in_use = h; same_len = len; same_buf = buf; called_back = called }

more-Holds : {q : List (List ℕ)} (t : Tx) → Holds t q → Holds (record t { ep1 = ep1_start t.ep1 }) q
more-Holds t (idle c n a b l) = idle c n a b (ground (arith, ep1_start-keeps t.ep1))
more-Holds t (one out1_id s n z e) = one out1_id (Sends-ep1_start out1_id t s) n z e
more-Holds t (one out2_id s n z e) = one out2_id (Sends-ep1_start out2_id t s) n z e
more-Holds t (two out1_id s n z e f) = two out1_id (Sends-ep1_start out1_id t s) n z e f
more-Holds t (two out2_id s n z e f) = two out2_id (Sends-ep1_start out2_id t s) n z e f

finished-Holds :
    (b : BufId) (t : Tx)
    → t.next_tx_buf ≡ none
    → (buf_at (other b) t).len ≡ 0
    → Holds (finished b t) []
finished-Holds out1_id t n z = idle refl n refl z refl
finished-Holds out2_id t n z = idle refl n z refl refl

resumed-Holds :
    {q : List ℕ} (b : BufId) (t : Tx)
    → 0 < (buf_at (other b) t).len
    → (buf_at (other b) t).buf ≡ q
    → Holds (resumed b (other b) t) (q ∷ [])
resumed-Holds out1_id t h f = one out2_id (resumed-Sends out1_id t h) refl refl f
resumed-Holds out2_id t h f = one out1_id (resumed-Sends out2_id t h) refl refl f

done-Holds :
    {q : List (List ℕ)} (t : Tx)
    → Holds t q
    → t.ep1.configured ≡ true
    → t.ep1.remain ≡ 0
    → Holds (ep1_interrupt t) (rest_of q)
done-Holds t (idle c n a b l) conf r = rw (interrupt_idle t r l) (idle c n a b l)
done-Holds t (one b s n z e) conf r = rw (interrupt_one b t r s n) (finished-Holds b t n z)
done-Holds t (two b s n z e f) conf r = rw (interrupt_two b t r s n conf) (resumed-Holds b t z f)

-- On a configured bus, an interrupt while bytes of the packet remain changes nothing of the queue.
pub interrupt-Holds :
    {q : List (List ℕ)} (t : Tx)
    → Holds t q
    → t.ep1.configured ≡ true
    → 0 < t.ep1.remain
    → Holds (ep1_interrupt t) q
interrupt-Holds t h conf r = rw (interrupt_more t r) (more-Holds t h)

-- On a configured bus, the interrupt after the last byte of a packet removes that packet, the
-- oldest one, from the queue, and the one behind it is then under way.
pub interrupt-Holds_done :
    {q : List (List ℕ)} (t : Tx)
    → Holds t q
    → t.ep1.configured ≡ true
    → t.ep1.remain ≡ 0
    → Holds (ep1_interrupt t) (rest_of q)
interrupt-Holds_done t h conf r = done-Holds t h conf r
