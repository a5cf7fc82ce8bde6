-- ===== src/Usb/Ep0/Stage.antt =====
-- The packets of a control transfer on endpoint 0, and one turn of the loop that sends them (write_fifo
-- of src/blob/usb_ep0.c).
use gen_blob.Base.{
  ℕ, zero, suc, ◌-◌, ◌%◌, ◌≤◌, ◌<◌, Bool, true, false, ◌&&◌, List, [], ◌∷◌, ◌++◌, some, ◌≡◌, refl,
  ◌∙◌, ap, arith, ◌⊎◌, inl, inr, ltb, ◌==◌, if◌then◌else◌, take, drop, min, length, append_assoc,
  Bool-cases, length-drop, take-append-take,
}
use gen_blob.Usb.Ep1.{Packet}
use gen_blob.Usb.Ep0.{
  Csr, CsrWrite, write_opc, write_opc_ftf, Ep0, ep0_end_xfer, ep0_in_data_phase, bytes_at, wait_ack,
  finish_write, write_fifo, sh_write,
}

-- The packets that carry the bytes of a data stage: 16 bytes each, up to one of fewer bytes, marked
-- as short, which may be empty; if the host gets all that it asked for (`full`), the last one may
-- also have 16 bytes, and no empty one is sent behind it.
pub data IsStage (full : Bool) : List ℕ → List Packet → Type 0 where
  short_packet :
      (bytes : List ℕ)
      → length bytes < 16
      → IsStage full bytes (record { bytes = bytes; short = true } ∷ [])
  full_packet :
      (bytes : List ℕ)
      → length bytes ≡ 16
      → full ≡ true
      → IsStage full bytes (record { bytes = bytes; short = false } ∷ [])
  more_packets :
      {rest : List ℕ} {packets : List Packet} (bytes : List ℕ)
      → length bytes ≡ 16
      → (full ≡ false) ⊎ (0 < length rest)
      → IsStage full rest packets
      → IsStage full (bytes ++ rest) (record { bytes = bytes; short = false } ∷ packets)

-- The driver has not flushed the FIFO (UDCCSR0_FTF).
abbrev pub flushes : List CsrWrite → Bool
flushes [] = false
flushes (write_opc_ftf ∷ ws) = true
flushes (_ ∷ ws) = flushes ws

flushes-write_opc : (ws : List CsrWrite) → flushes (ws ++ write_opc ∷ []) ≡ flushes ws
flushes-write_opc [] = refl
flushes-write_opc (w ∷ ws) = ground (arith, flushes-write_opc ws)

-- Nothing changes but what was read and the acknowledgements.
pub record IsKept (e e' : Ep0) : Type 0 where
  pub state : e'.ep0_state ≡ e.ep0_state
  pub flag : e'.req_flag ≡ e.req_flag
  pub bytes : e'.wr_p ≡ e.wr_p
  pub left : e'.bytes_left ≡ e.bytes_left
  pub address : e'.address ≡ e.address
  pub fifo : e'.fifo ≡ e.fifo
  pub flushed : flushes e'.status ≡ flushes e.status

-- The driver `e'` has sent the bytes, from `e` on.
pub record IsSent (full : Bool) (bytes : List ℕ) (e e' : Ep0) : Type 0 where
  pub state : e'.ep0_state ≡ ep0_end_xfer
  pub flag : e'.req_flag ≡ false
  pub no_bytes : e'.wr_p ≡ []
  pub none_left : e'.bytes_left ≡ 0
  pub address : e'.address ≡ e.address
  pub flushed : flushes e'.status ≡ flushes e.status
  pub packets : List Packet
  pub fifo : e'.fifo ≡ e.fifo ++ packets
  pub stage : IsStage full bytes packets

-- A full packet goes in front.
pub prepend-IsSent :
    {full : Bool} {rest : List ℕ} (e e1 e' : Ep0) (bytes : List ℕ)
    → length bytes ≡ 16
    → (full ≡ false) ⊎ (0 < length rest)
    → e1.fifo ≡ e.fifo ++ record { bytes = bytes; short = false } ∷ []
    → e1.address ≡ e.address
    → flushes e1.status ≡ flushes e.status
    → IsSent full rest e1 e'
    → IsSent full (bytes ++ rest) e e'
prepend-IsSent e e1 e' bytes h m f a c s = record {
  state = s.state;
  flag = s.flag;
  no_bytes = s.no_bytes;
  none_left = s.none_left;
  address = s.address ∙ a;
  flushed = s.flushed ∙ c;
  packets = record { bytes = bytes; short = false } ∷ s.packets;
  fifo =
      s.fifo
      ∙ ap (λ x. x ++ s.packets) f
      ∙ append_assoc e.fifo (record { bytes = bytes; short = false } ∷ []) s.packets;
  stage = more_packets bytes h m s.stage;
}

pub bytes_at-some : (n : ℕ) (p : List ℕ) → n ≤ length p → bytes_at n p ≡ some (take n p)
unfolding bytes_at
bytes_at-some n p h = ground arith

module _ (udccsr0 : ℕ → Csr) (udcdr0 : ℕ → ℕ) where
  pub wait_ack-IsKept : (count : ℕ) (e : Ep0) → IsKept e (wait_ack udccsr0 udcdr0 count e)
  unfolding wait_ack
  wait_ack-IsKept zero e = record {
    state = refl;
    flag = refl;
    bytes = refl;
    left = refl;
    address = refl;
    fifo = refl;
    flushed = refl;
  }
  wait_ack-IsKept (suc count) e =
      let k = wait_ack-IsKept count (record e { reads = suc e.reads }) in
      elim (Bool-cases (udccsr0 e.reads).opc) [
        | inl o ↦ rw o (record {
          state = refl;
          flag = refl;
          bytes = refl;
          left = refl;
          address = refl;
          fifo = refl;
          flushed = flushes-write_opc e.status;
        })
        | inr o ↦ rw o (record {
          state = k.state;
          flag = k.flag;
          bytes = k.bytes;
          left = k.left;
          address = k.address;
          fifo = k.fifo;
          flushed = k.flushed;
        })
      ]

  -- The driver after one turn of the loop, before the end is noticed.
  abbrev pub written : Ep0 → Ep0
  written e =
      let n = min e.bytes_left 16 in
      record e {
        bytes_left = e.bytes_left - n;
        wr_p = drop n e.wr_p;
        fifo =
            e.fifo
            ++ record { bytes = take n e.wr_p; short = (e.bytes_left - n == 0) && ltb n 16 } ∷ [];
      }

  pub write_fifo-some :
      (e : Ep0)
      → e.bytes_left ≤ length e.wr_p
      → write_fifo udccsr0 udcdr0 e
        ≡ some (
            if e.bytes_left - min e.bytes_left 16 == 0
            then finish_write udccsr0 udcdr0 (min e.bytes_left 16) (written e)
            else written e)
  unfolding write_fifo
  write_fifo-some e h =
      let n = min e.bytes_left 16 in
      let m = n - n % 4 in
      let words : bytes_at m e.wr_p ≡ some (take m e.wr_p) = bytes_at-some m e.wr_p (omega arith) in
      let bytes : bytes_at (n % 4) (drop m e.wr_p) ≡ some (take (n % 4) (drop m e.wr_p)) =
        bytes_at-some (n % 4) (drop m e.wr_p) (omega (arith, length-drop m e.wr_p)) in
      let whole : take m e.wr_p ++ take (n % 4) (drop m e.wr_p) ≡ take n e.wr_p =
        take-append-take m (n % 4) e.wr_p ∙ ap (λ k. take k e.wr_p) (omega arith) in
      rw (words, bytes, whole) refl

  -- What the end of the block leaves, where the last packet had `n` bytes.
  abbrev pub ended : ℕ → Ep0 → Ep0
  ended n e = record e {
    wr_p = [];
    req_flag = false;
    ep0_state = if e.req_flag then ep0_end_xfer else if ltb n 16 then ep0_end_xfer else e.ep0_state;
  }

  pub finish_write-IsKept : (n : ℕ) (e : Ep0) → IsKept (ended n e) (finish_write udccsr0 udcdr0 n e)
  unfolding finish_write
  finish_write-IsKept n e = wait_ack-IsKept 1000 (ended n e)

  abbrev pub turn : Ep0 → Ep0
  turn e =
      if e.bytes_left - min e.bytes_left 16 == 0
      then finish_write udccsr0 udcdr0 (min e.bytes_left 16) (written e)
      else written e

  pub sh_write-end :
      (fuel : ℕ) (e : Ep0)
      → e.bytes_left ≤ length e.wr_p
      → (turn e).ep0_state ≡ ep0_end_xfer
      → sh_write udccsr0 udcdr0 (suc fuel) e ≡ some (turn e)
  unfolding sh_write
  sh_write-end fuel e h s = rw (write_fifo-some e h, s) refl

  pub sh_write-next :
      (fuel : ℕ) (e : Ep0)
      → e.bytes_left ≤ length e.wr_p
      → (turn e).ep0_state ≡ ep0_in_data_phase
      → sh_write udccsr0 udcdr0 (suc fuel) e ≡ sh_write udccsr0 udcdr0 fuel (turn e)
  unfolding sh_write
  sh_write-next fuel e h s = rw (write_fifo-some e h, s) refl

  pub turn_finish :
      (e : Ep0) → e.bytes_left ≤ 16 → turn e ≡ finish_write udccsr0 udcdr0 e.bytes_left (written e)
  turn_finish e h =
      let m : min e.bytes_left 16 ≡ e.bytes_left = omega arith in
      let z : e.bytes_left - e.bytes_left == 0 ≡ true = ground arith in rw (m, z) refl
