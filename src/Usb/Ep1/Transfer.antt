-- ===== src/Usb/Ep1/Transfer.antt =====
-- Endpoint 1 over a whole transfer.
use gen_blob.Base.{
  ℕ, zero, suc, ◌+◌, ◌-◌, ◌%◌, ◌≤◌, ◌<◌, true, List, [], ◌∷◌, ◌++◌, Option, none, some, ◌≡◌, refl,
  arith, ap, ◌∙◌, sym, ltb, ◌==◌, if◌then◌else◌, take, drop, take-append-take, append-nil,
  append_assoc, Bool-cases, inl, inr, ap₂,
}
use gen_blob.Usb.Ep1.{Packet, Ep1, Call, ok, ep1_send_packet, ep1_int_hndlr, ep1_send}

-- The bytes of the packets, in order.
abbrev pub payload : List Packet → List ℕ
payload [] = []
payload (p ∷ ps) = p.bytes ++ payload ps

payload-append : (ps qs : List Packet) → payload (ps ++ qs) ≡ payload ps ++ payload qs
payload-append [] qs = refl
payload-append (p ∷ ps) qs = rw (payload-append ps qs, append_assoc)

-- Goes on from an interrupt that made no callback.
abbrev go_on : (Ep1 → Option (Ep1 × ℕ)) → Ep1 × Call → Option (Ep1 × ℕ)
go_on next (e, none) = next e
go_on next (e, some (ok, size)) = some (e, size)
go_on next (e, some (_, size)) = none

-- The interrupts of a transfer, up to the call of the callback; `none` if the fuel runs out.
pub transmit : ℕ → Ep1 → Option (Ep1 × ℕ)
transmit zero e = none
transmit (suc fuel) e = go_on (transmit fuel) (ep1_int_hndlr e)

-- Within a transfer of `buf[0..len)`, behind the packets `before`.
record InTransfer (before : List Packet) (buf : List ℕ) (len : ℕ) (e : Ep1) : Type 0 where
  same_buf : e.buf ≡ buf
  same_len : e.len ≡ len
  below : e.remain ≤ len
  by_64 : e.tx_pktsize ≡ 64
  called_back : e.callback ≡ true
  out_so_far : payload e.fifo ≡ payload before ++ take (len - e.remain) buf

-- The bytes of one packet: the words and the single bytes behind them.
packet_bytes :
    (size : ℕ) (p : List ℕ)
    → take (size - size % 4) p
        ++ (if size % 4 == 0 then [] else take (size % 4) (drop (size - size % 4) p))
      ≡ take size p
packet_bytes size p = elim (Bool-cases (size % 4 == 0)) [
  | inl whole ↦ rw whole (append-nil _ ∙ ap (λ n. take n p) (ground arith))
  | inr odd ↦
      rw odd (take-append-take (size - size % 4) (size % 4) p ∙ ap (λ n. take n p) (omega arith))
]

abbrev packet_size : Ep1 → ℕ
packet_size e = if ltb e.remain e.tx_pktsize then e.remain else e.tx_pktsize

payload-ep1_send_packet :
    (e : Ep1)
    → payload (ep1_send_packet e).fifo
      ≡ payload e.fifo ++ take (packet_size e) (drop (e.len - e.remain) e.buf)
unfolding ep1_send_packet
payload-ep1_send_packet e =
    payload-append e.fifo _
    ∙ ap (λ b. payload e.fifo ++ b)
        (append-nil _ ∙ packet_bytes (packet_size e) (drop (e.len - e.remain) e.buf))

send_packet-remain : (e : Ep1) → (ep1_send_packet e).remain ≡ e.remain - packet_size e
unfolding ep1_send_packet
send_packet-remain e = refl

InTransfer-send_packet :
    {before : List Packet} {buf : List ℕ} {len : ℕ} (e : Ep1)
    → InTransfer before buf len e
    → InTransfer before buf len (ep1_send_packet e)
InTransfer-send_packet {before} {buf} {len} e i =
    let size = packet_size e in
    let at : e.len - e.remain ≡ len - e.remain = omega (arith, i.same_len) in
    let fits : size ≤ e.remain = ground arith in
    let reached : len - e.remain + size ≡ len - (ep1_send_packet e).remain =
      omega (arith, send_packet-remain e, i.below) in
    record {
      same_buf = unfold ep1_send_packet in i.same_buf;
      same_len = unfold ep1_send_packet in i.same_len;
      below = omega (arith, send_packet-remain e, i.below);
      by_64 = unfold ep1_send_packet in i.by_64;
      called_back = unfold ep1_send_packet in i.called_back;
      out_so_far =
          payload-ep1_send_packet e
          ∙ ap₂ (λ (xs ys : List ℕ). xs ++ ys) i.out_so_far
              (ap₂ (λ k b. take size (drop k b)) at i.same_buf)
          ∙ append_assoc (payload before) _ _
          ∙ ap (λ xs. payload before ++ xs) (take-append-take (len - e.remain) size buf)
          ∙ ap (λ k. payload before ++ take k buf) reached;
    }

-- A completed transfer: the callback got the length, and the packets carry the buffer.
pub record Completes (before : List Packet) (buf : List ℕ) (len : ℕ) (r : Option (Ep1 × ℕ))
    : Type 0 where
  pub last : Ep1
  pub returns : r ≡ some (last, len)
  pub sent : payload last.fifo ≡ payload before ++ take len buf
  pub free : last.len ≡ 0

int_hndlr_more : (e : Ep1) → 0 < e.remain → 0 < e.len → ep1_int_hndlr e ≡ (ep1_send_packet e, none)
unfolding ep1_int_hndlr
int_hndlr_more e h l = ground arith

int_hndlr_done :
    (e : Ep1)
    → e.remain ≡ 0
    → 0 < e.len
    → e.callback ≡ true
    → ep1_int_hndlr e ≡ (record e { len = 0 }, some (ok, e.len))
unfolding ep1_int_hndlr
int_hndlr_done e h l c = ground arith

transmit_more :
    (fuel : ℕ) (e : Ep1)
    → 0 < e.remain
    → 0 < e.len
    → transmit (suc fuel) e ≡ transmit fuel (ep1_send_packet e)
unfolding transmit
transmit_more fuel e h l = ap (go_on (transmit fuel)) (int_hndlr_more e h l)

transmit_done :
    (fuel : ℕ) (e : Ep1)
    → e.remain ≡ 0
    → 0 < e.len
    → e.callback ≡ true
    → transmit (suc fuel) e ≡ some (record e { len = 0 }, e.len)
unfolding transmit
transmit_done fuel e h l c = ap (go_on (transmit fuel)) (int_hndlr_done e h l c)

transmit-Completes :
    {before : List Packet} {buf : List ℕ} {len : ℕ} (fuel : ℕ) (e : Ep1)
    → 0 < len
    → InTransfer before buf len e
    → e.remain < fuel
    → Completes before buf len (transmit fuel e)
transmit-Completes zero e h i enough = absurd (omega arith)
transmit-Completes {before} {buf} {len} (suc fuel) e h i enough =
    let busy : 0 < e.len = omega (arith, i.same_len) in
    elim (Bool-cases (e.remain == 0)) [
      | inl empty ↦
          let nothing_left : e.remain ≡ 0 = ground arith in
          record {
            last = record e { len = 0 };
            returns = transmit_done fuel e nothing_left busy i.called_back ∙ rw i.same_len;
            sent =
                i.out_so_far ∙ ap (λ k. payload before ++ take k buf) (omega (arith, nothing_left));
            free = refl;
          }
      | inr more ↦
          let some_left : 0 < e.remain = ground arith in
          let less : (ep1_send_packet e).remain < fuel =
            ground (arith, send_packet-remain e, i.by_64) in
          rw (transmit_more fuel e some_left busy)
            (transmit-Completes fuel (ep1_send_packet e) h (InTransfer-send_packet e i) less)
    ]

abbrev fresh : List ℕ → ℕ → Ep1 → Ep1
fresh buf len e = record e { buf = buf; len = len; callback = true; remain = len }

ep1_send-fresh :
    (buf : List ℕ) (len : ℕ) (e : Ep1)
    → e.configured ≡ true
    → e.len ≡ 0
    → 0 < len
    → ep1_send buf len e ≡ (ep1_send_packet (fresh buf len e), ok)
unfolding ep1_send
ep1_send-fresh buf len e c l h = ground arith

ep1_send-InTransfer :
    (buf : List ℕ) (len : ℕ) (e : Ep1)
    → e.tx_pktsize ≡ 64
    → InTransfer e.fifo buf len (ep1_send_packet (fresh buf len e))
ep1_send-InTransfer buf len e size =
    let nothing_yet : len - len ≡ 0 = omega arith in
    InTransfer-send_packet (fresh buf len e) (record {
      same_buf = refl;
      same_len = refl;
      below = omega arith;
      by_64 = size;
      called_back = refl;
      out_so_far =
          sym (ap (λ k. payload e.fifo ++ take k buf) nothing_yet ∙ append-nil (payload e.fifo));
    })

-- A buffer given to an idle, configured endpoint is sent whole: after `len` more interrupts at
-- the most the callback is called with the length, the packets sent since carry the `len` bytes
-- of the buffer in order, and the endpoint is idle again.
pub transmit-ep1_send :
    (buf : List ℕ) (len : ℕ) (e : Ep1)
    → e.configured ≡ true
    → e.len ≡ 0
    → e.tx_pktsize ≡ 64
    → 0 < len
    → ((ep1_send buf len e).1 ≡ ok)
      × Completes e.fifo buf len (transmit (suc len) (ep1_send buf len e).0)
transmit-ep1_send buf len e c l size h =
    let started = ep1_send-InTransfer buf len e size in
    rw (ep1_send-fresh buf len e c l h) (
      refl,
      transmit-Completes (suc len) (ep1_send_packet (fresh buf len e)) h started
          (omega (arith, started.below)),
    )
