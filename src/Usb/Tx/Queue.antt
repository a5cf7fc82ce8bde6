-- ===== src/Usb/Tx/Queue.antt =====
-- The driver of src/blob/usb-mot1.c as a queue of at most two packets, oldest first.
use gen_blob.Base.{
  ℕ, ◌<◌, Bool, true, false, List, [], ◌∷◌, ◌++◌, Option, none, some, ◌≡◌, refl, arith, length,
}
use gen_blob.Usb.Ep1.{Ep1, ep1_send, ep1_start}
use gen_blob.Usb.Tx.{Tx, BufId, out1_id, out2_id, get_buf, buf_at, set_buf, ezx_usb_xmit}

abbrev pub other : BufId → BufId
other out1_id = out2_id
other out2_id = out1_id

-- The endpoint is sending this buffer.
pub record Sends (b : BufId) (t : Tx) : Type 0 where
  pub is_current : t.cur_tx_buf ≡ some b
  pub in_use : 0 < (buf_at b t).len
  pub same_len : t.ep1.len ≡ (buf_at b t).len
  pub same_buf : t.ep1.buf ≡ (buf_at b t).buf
  pub called_back : t.ep1.callback ≡ true

-- The packets that the driver has accepted and not finished.
pub data Holds (t : Tx) : List (List ℕ) → Type 0 where
  idle :
      t.cur_tx_buf ≡ none
      → t.next_tx_buf ≡ none
      → t.out1.len ≡ 0
      → t.out2.len ≡ 0
      → t.ep1.len ≡ 0
      → Holds t []
  one :
      {p : List ℕ} (b : BufId)
      → Sends b t
      → t.next_tx_buf ≡ none
      → (buf_at (other b) t).len ≡ 0
      → (buf_at b t).buf ≡ p
      → Holds t (p ∷ [])
  two :
      {p q : List ℕ} (b : BufId)
      → Sends b t
      → t.next_tx_buf ≡ some (other b)
      → 0 < (buf_at (other b) t).len
      → (buf_at b t).buf ≡ p
      → (buf_at (other b) t).buf ≡ q
      → Holds t (p ∷ q ∷ [])

-- What parse_send_packet does with a finished packet: it takes a free buffer, or gives up.
abbrev pub enqueue_in : Option BufId → List ℕ → Tx → Tx × Bool
enqueue_in none p t = (t, false)
enqueue_in (some b) p t = ezx_usb_xmit b (set_buf b (record { buf = p; len = length p }) t)

abbrev pub enqueue : List ℕ → Tx → Tx × Bool
enqueue p t = enqueue_in (get_buf t) p t

-- The driver with packet `p` under way from the buffer `b`.
abbrev pub under_way : BufId → List ℕ → Tx → Tx
under_way b p t = record (set_buf b (record { buf = p; len = length p }) t) {
  cur_tx_buf = some b;
  ep1 = ep1_start (record t.ep1 { buf = p; len = length p; callback = true; remain = length p });
}

pub ep1_start-keeps :
    (e : Ep1)
    → ((ep1_start e).buf ≡ e.buf)
      × ((ep1_start e).len ≡ e.len)
      × ((ep1_start e).callback ≡ e.callback)
      × ((ep1_start e).configured ≡ e.configured)
unfolding ep1_start
ep1_start-keeps e = ground arith

pub under_way-Sends : (b : BufId) (p : List ℕ) (t : Tx) → 0 < length p → Sends b (under_way b p t)
under_way-Sends out1_id p t h =
    let (same_buf, same_len, called, conf) =
      ep1_start-keeps
        (record t.ep1 { buf = p; len = length p; callback = true; remain = length p }) in
    record {
      is_current = refl;
      in_use = h;
      same_len = same_len;
      same_buf = same_buf;
      called_back = called;
    }
under_way-Sends out2_id p t h =
    let (same_buf, same_len, called, conf) =
      ep1_start-keeps
        (record t.ep1 { buf = p; len = length p; callback = true; remain = length p }) in
    record {
      is_current = refl;
      in_use = h;
      same_len = same_len;
      same_buf = same_buf;
      called_back = called;
    }

enqueue_idle :
    (p : List ℕ) (t : Tx)
    → t.cur_tx_buf ≡ none
    → t.out1.len ≡ 0
    → t.ep1.len ≡ 0
    → t.ep1.configured ≡ true
    → enqueue p t ≡ (under_way out1_id p t, true)
unfolding get_buf ezx_usb_xmit ep1_send
enqueue_idle p t c a l conf = ground arith

abbrev waiting : BufId → List ℕ → Tx → Tx
waiting b p t = record (set_buf b (record { buf = p; len = length p }) t) { next_tx_buf = some b }

enqueue_one :
    (b : BufId) (p : List ℕ) (t : Tx)
    → Sends b t
    → t.next_tx_buf ≡ none
    → (buf_at (other b) t).len ≡ 0
    → enqueue p t ≡ (waiting (other b) p t, true)
unfolding get_buf ezx_usb_xmit
enqueue_one out1_id p t s n z = ground arith
enqueue_one out2_id p t s n z = ground arith

enqueue_two :
    (b : BufId) (p : List ℕ) (t : Tx)
    → 0 < (buf_at b t).len
    → 0 < (buf_at (other b) t).len
    → enqueue p t ≡ (t, false)
unfolding get_buf
enqueue_two out1_id p t s n = ground arith
enqueue_two out2_id p t s n = ground arith

waiting-Holds :
    {q : List ℕ} (b : BufId) (p : List ℕ) (t : Tx)
    → Sends b t
    → (buf_at b t).buf ≡ q
    → 0 < length p
    → Holds (waiting (other b) p t) (q ∷ p ∷ [])
waiting-Holds out1_id p t s e h =
    two out1_id
      (record {
        is_current = s.is_current;
        in_use = s.in_use;
        same_len = s.same_len;
        same_buf = s.same_buf;
        called_back = s.called_back;
      })
      refl h e refl
waiting-Holds out2_id p t s e h =
    two out2_id
      (record {
        is_current = s.is_current;
        in_use = s.in_use;
        same_len = s.same_len;
        same_buf = s.same_buf;
        called_back = s.called_back;
      })
      refl h e refl

-- On a configured bus, a packet that is not empty is accepted behind the others while fewer than
-- two are held.
pub enqueue-Holds :
    {q : List (List ℕ)} (p : List ℕ) (t : Tx)
    → Holds t q
    → t.ep1.configured ≡ true
    → 0 < length p
    → length q < 2
    → ((enqueue p t).1 ≡ true) × Holds (enqueue p t).0 (q ++ p ∷ [])
enqueue-Holds p t (idle c n a b l) conf h few =
    rw (enqueue_idle p t c a l conf) (refl, one out1_id (under_way-Sends out1_id p t h) n b refl)
enqueue-Holds p t (one b s n z e) conf h few =
    rw (enqueue_one b p t s n z) (refl, waiting-Holds b p t s e h)
enqueue-Holds p t (two b s n z e f) conf h few = absurd (omega arith)

-- While two packets are held, a further one is refused and the driver is as it was.
pub enqueue_full :
    {q : List (List ℕ)} (p : List ℕ) (t : Tx) → Holds t q → length q ≡ 2 → enqueue p t ≡ (t, false)
enqueue_full p t (idle c n a b l) full = absurd (omega arith)
enqueue_full p t (one b s n z e) full = absurd (omega arith)
enqueue_full p t (two b s n z e f) full = enqueue_two b p t s.in_use z
