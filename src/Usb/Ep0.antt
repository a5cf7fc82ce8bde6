-- ===== src/Usb/Ep0.antt =====
-- src/blob/usb_ep0.c: endpoint 0, on which the host asks for the descriptors. The statistics are
-- left out; `current_handler` only ever points to sh_setup_begin.
pub mod Stage
pub mod Transfer
pub mod Setup
use gen_blob.Base.{
  ℕ, zero, suc, ◌+◌, ◌-◌, ◌*◌, ◌%◌, ◌/◌, Bool, true, false, not, ◌&&◌, List, [], ◌∷◌, ◌++◌, Option,
  none, some, leb, ltb, ◌==◌, if◌then◌else◌, take, drop, min, length, get_elem?, ◌>>=◌,
}
use gen_blob.Usb.Ep1.{Packet}
use gen_blob.Usb.Control.{Ctl, pxa_usb_get_string_descriptor}

pub data Ep0State : Type 0 where
  ep0_idle ep0_in_data_phase ep0_end_xfer ep0_out_data_phase : Ep0State

-- The bits of UDCCSR0 that the driver tests: OPC, SA and RNE.
pub record Csr : Type 0 where
  pub opc : Bool
  pub sa : Bool
  pub rne : Bool

-- The values that it writes there, besides IPR, which is the mark of a short packet.
pub data CsrWrite : Type 0 where
  write_opc write_opc_ftf write_fst write_setup_ready : CsrWrite

-- The statics, with `wr` as the bytes from `wr.p` on (none for NULL) and `wr.bytes_left`; what was
-- written to the two registers so far; and `reads`, how often they were read.
pub record Ep0 : Type 0 where
  pub ep0_state : Ep0State
  pub req_flag : Bool
  pub wr_p : List ℕ
  pub bytes_left : ℕ
  pub address : ℕ
  pub fifo : List Packet
  pub status : List CsrWrite
  pub reads : ℕ

-- `desc_t`, by its bytes.
pub record Desc : Type 0 where
  pub dev : List ℕ
  pub cdb : List ℕ

pub record Request : Type 0 where
  pub bm_request_type : ℕ
  pub b_request : ℕ
  pub w_value : ℕ
  pub w_index : ℕ
  pub w_length : ℕ

abbrev pub ep0_fifo_size : ℕ
ep0_fifo_size = 16

unfoldable pub ep0_reset : Ep0 → Ep0
ep0_reset e = record e { wr_p = []; bytes_left = 0; address = 0 }

abbrev pub write_csr : CsrWrite → Ep0 → Ep0
write_csr v e = record e { status = e.status ++ v ∷ [] }

abbrev pub is_end_xfer : Ep0State → Bool
is_end_xfer ep0_end_xfer = true
is_end_xfer _ = false

abbrev pub in_data_phase : Ep0State → Bool
in_data_phase ep0_in_data_phase = true
in_data_phase _ = false

-- The `n` bytes at a pointer to `p`, a fault where there are fewer.
unfoldable pub bytes_at : ℕ → List ℕ → Option (List ℕ)
bytes_at n p = if leb n (length p) then some (take n p) else none

-- The sum of wTotalLength of `n` configurations, one behind the other from place `at` of cdb.
unfoldable pub config_length : List ℕ → ℕ → ℕ → Option ℕ
config_length cdb at zero = some 0
config_length cdb at (suc n) = do
  low ← get_elem? cdb (at + 2)
  high ← get_elem? cdb (at + 3)
  let total = low + 256 * high
  len ← config_length cdb (at + total) n
  some (total + len)

-- The eight bytes of a request, by the two words that hold them.
abbrev pub request : ℕ → ℕ → Request
request low high = record {
  bm_request_type = low % 256;
  b_request = low / 256 % 256;
  w_value = low / 65536 % 65536;
  w_index = high % 65536;
  w_length = high / 65536 % 65536;
}

-- What reading the registers UDCCSR0 and UDCDR0 gives, which is the hardware's, for each read.
module _ (udccsr0 : ℕ → Csr) (udcdr0 : ℕ → ℕ) where
  -- The poll for the host's acknowledgement, `count` times at most.
  unfoldable pub wait_ack : ℕ → Ep0 → Ep0
  wait_ack zero e = e
  wait_ack (suc count) e =
      let e' = record e { reads = suc e.reads } in
      let again = wait_ack count e' in
      if (udccsr0 e.reads).opc then write_csr write_opc e' else again

  -- The block `if (wr.bytes_left == 0)`.
  unfoldable pub finish_write : ℕ → Ep0 → Ep0
  finish_write bytes_written e =
      let state =
        if e.req_flag
        then ep0_end_xfer
        else if ltb bytes_written ep0_fifo_size
        then ep0_end_xfer
        else e.ep0_state in
      wait_ack 1000 (record e { wr_p = []; req_flag = false; ep0_state = state })

  -- The words of a packet go first, then its last one to three bytes one by one.
  unfoldable pub write_fifo : Ep0 → Option Ep0
  write_fifo e = do
    let bytes_this_time = min e.bytes_left ep0_fifo_size
    let in_words = bytes_this_time - bytes_this_time % 4
    words ← bytes_at in_words e.wr_p
    bytes ← bytes_at (bytes_this_time % 4) (drop in_words e.wr_p)
    let left = e.bytes_left - bytes_this_time
    let short = left == 0 && ltb bytes_this_time ep0_fifo_size
    let e' : Ep0 = record e {
      bytes_left = left;
      wr_p = drop bytes_this_time e.wr_p;
      fifo = e.fifo ++ record { bytes = words ++ bytes; short = short } ∷ [];
    }
    some (if left == 0 then finish_write bytes_this_time e' else e')

  -- The loop, on fuel.
  unfoldable pub sh_write : ℕ → Ep0 → Option Ep0
  sh_write zero e = none
  sh_write (suc fuel) e = do
    e' ← write_fifo e
    let rest = sh_write fuel e'
    if is_end_xfer e'.ep0_state then some e' else rest

  -- The loop writes at least one byte each time but the last one.
  unfoldable pub queue_and_start_write : List ℕ → ℕ → ℕ → Ep0 → Option Ep0
  queue_and_start_write bytes req act e =
      let n = min act req in
      sh_write (suc n) (record e {
        wr_p = bytes;
        bytes_left = n;
        req_flag = if n == req then true else e.req_flag;
        ep0_state = ep0_in_data_phase;
      })

  -- `while (UDCCSR0 & UDCCSR0_RNE)`, which leaves at the third read at the latest.
  unfoldable pub read_words : ℕ → Ep0 → List ℕ × Ep0
  read_words zero e = ([], record e { reads = suc e.reads })
  read_words (suc n) e =
      let (words, e') = read_words n (record e { reads = suc (suc e.reads) }) in
      if (udccsr0 e.reads).rne
      then (udcdr0 (suc e.reads) ∷ words, e')
      else ([], record e { reads = suc e.reads })

  unfoldable pub read_fifo : Ep0 → List ℕ × Ep0
  read_fifo e =
      let e' : Ep0 = record e { reads = suc e.reads } in
      if (udccsr0 e.reads).sa && (udccsr0 e.reads).opc
      then (let (words, e'') = read_words 2 e' in (words, write_csr write_setup_ready e''))
      else ([], write_csr write_setup_ready e')

  unfoldable pub send_string : Option (List ℕ) → ℕ → Ep0 → Option Ep0
  send_string none w_length e = some e
  send_string (some s) w_length e = do
    b_length ← get_elem? s 0
    queue_and_start_write s w_length b_length e

  -- USB_DESC_DEVICE, USB_DESC_CONFIG and USB_DESC_STRING
  unfoldable pub get_descriptor : Desc → Ctl → Request → Ep0 → Option Ep0
  get_descriptor desc c req e =
      let kind = req.w_value / 256 in
      if kind == 1
      then (do
        b_length ← get_elem? desc.dev 0
        queue_and_start_write desc.dev req.w_length b_length e)
      else if kind == 2
      then (do
        configurations ← get_elem? desc.dev 17
        len ← config_length desc.cdb 0 configurations
        queue_and_start_write desc.cdb req.w_length len e)
      else if kind == 3
      then (do
        string ← pxa_usb_get_string_descriptor (req.w_value % 256) c
        send_string string req.w_length e)
      else some e

  -- Only GET_DESCRIPTOR of the standard requests does anything.
  unfoldable pub handle_request : Desc → Ctl → List ℕ → Ep0 → Option Ep0
  handle_request desc c (low ∷ high ∷ []) e =
      let req = request low high in
      if not (req.bm_request_type / 16 % 4 == 0)
      then some e
      else if req.b_request == 6
      then get_descriptor desc c req e
      else some e
  handle_request desc c _ e = some (write_csr write_fst e)

  unfoldable pub sh_setup_begin : Desc → Ctl → Ep0 → Option Ep0
  sh_setup_begin desc c e =
      let cs_reg_in = udccsr0 e.reads in
      let e1 : Ep0 = record e { reads = suc e.reads } in
      let e2 : Ep0 = record e { reads = suc (suc e.reads) } in
      if not cs_reg_in.opc
      then some e1
      else if not cs_reg_in.sa && in_data_phase e.ep0_state
      then some (record (write_csr write_opc_ftf e1) { ep0_state = ep0_idle })
      else if not (udccsr0 (suc e.reads)).rne
      then some e2
      else (let (words, e3) = read_fifo e2 in handle_request desc c words e3)
