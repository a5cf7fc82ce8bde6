-- ===== src/Usb/Ep0/Setup.antt =====
-- The setup stage of endpoint 0 (sh_setup_begin of src/blob/usb_ep0.c): every request is served, and
-- between two requests no transfer is under way.
use gen_blob.Base.{
  ℕ, zero, suc, ◌/◌, ◌%◌, ◌≤◌, Bool, false, ◌&&◌, List, [], ◌∷◌, ◌++◌, Option, none, some, ◌≡◌,
  refl, ap, ◌∙◌, arith, inl, inr, ltb, ◌==◌, length, get_elem?, get_in_range, Bool-cases,
}
use gen_blob.Usb.Control.{Ctl, pxa_usb_get_string_descriptor, max_string_desc}
use gen_blob.Usb.Ep0.{
  Csr, CsrWrite, Ep0, Desc, Request, write_fst, write_setup_ready, request, in_data_phase,
  write_csr, queue_and_start_write, read_words, read_fifo, config_length, send_string,
  get_descriptor, handle_request, sh_setup_begin,
}
use gen_blob.Usb.Ep0.Stage.{flushes}
use gen_blob.Usb.Ep0.Transfer.{queue_and_start_write-IsSent}

-- The first byte of a descriptor, its length, is in place, and there are as many bytes.
abbrev pub IsWhole : List ℕ → Type 0
IsWhole s = (b : ℕ) × (get_elem? s 0 ≡ some b) × (b ≤ length s)

abbrev pub AreWhole : List (Option (List ℕ)) → Type 0
AreWhole [] = Unit
AreWhole (none ∷ ps) = AreWhole ps
AreWhole (some s ∷ ps) = IsWhole s × AreWhole ps

-- The configurations lie in cdb, one behind the other.
abbrev pub HasConfigs : Desc → Type 0
HasConfigs desc =
    (n : ℕ) × (len : ℕ) × (get_elem? desc.dev 17 ≡ some n)
    × (config_length desc.cdb 0 n ≡ some len)
    × (len ≤ length desc.cdb)

pub record IsDescribed (desc : Desc) (c : Ctl) : Type 0 where
  pub dev : IsWhole desc.dev
  pub configs : HasConfigs desc
  pub strings : AreWhole c.string_desc_array
  pub slots : length c.string_desc_array ≡ max_string_desc

-- No transfer is under way, and none was ever broken off by a flush of the FIFO.
pub record IsQuiet (e : Ep0) : Type 0 where
  pub state : in_data_phase e.ep0_state ≡ false
  pub flag : e.req_flag ≡ false
  pub flushed : flushes e.status ≡ false

found-IsWhole :
    (ps : List (Option (List ℕ))) (i : ℕ) (s : List ℕ)
    → AreWhole ps
    → get_elem? ps i ≡ some (some s)
    → IsWhole s
found-IsWhole [] i s w h = ground arith
found-IsWhole (none ∷ ps) zero s w h = ground arith
found-IsWhole (some t ∷ ps) zero s w h = ground arith
found-IsWhole (none ∷ ps) (suc i) s w h = found-IsWhole ps i s w h
found-IsWhole (some t ∷ ps) (suc i) s w h = found-IsWhole ps i s w.1 h

found-AreWhole :
    (ps : List (Option (List ℕ))) (i : ℕ) (p : Option (List ℕ))
    → AreWhole ps
    → get_elem? ps i ≡ some p
    → AreWhole (p ∷ [])
found-AreWhole ps i none w h = tt
found-AreWhole ps i (some s) w h = (found-IsWhole ps i s w h, tt)

flushes-append :
    (ws vs : List CsrWrite) → flushes ws ≡ false → flushes vs ≡ false → flushes (ws ++ vs) ≡ false
flushes-append [] vs g h = h
flushes-append (w ∷ ws) vs g h = ground (arith, flushes-append ws vs)

string_found :
    (desc : Desc) (c : Ctl) (i : ℕ)
    → IsDescribed desc c
    → (p : Option (List ℕ)) × (pxa_usb_get_string_descriptor i c ≡ some p) × AreWhole (p ∷ [])
unfolding pxa_usb_get_string_descriptor
string_found desc c i d = elim (Bool-cases (ltb i max_string_desc)) [
  | inl e ↦
      let (p, found) = get_in_range c.string_desc_array i (ground (arith, d.slots)) in
      rw e (p, found, found-AreWhole c.string_desc_array i p d.strings found)
  | inr e ↦ rw e (none, refl, tt)
]

stall-IsQuiet : (e : Ep0) → IsQuiet e → IsQuiet (write_csr write_fst e)
stall-IsQuiet e q = record {
  state = q.state;
  flag = q.flag;
  flushed = flushes-append e.status (write_fst ∷ []) q.flushed refl;
}

ready-IsQuiet : (e : Ep0) → IsQuiet e → IsQuiet (write_csr write_setup_ready e)
ready-IsQuiet e q = record {
  state = q.state;
  flag = q.flag;
  flushed = flushes-append e.status (write_setup_ready ∷ []) q.flushed refl;
}

tick-IsQuiet : (r : ℕ) (e : Ep0) → IsQuiet e → IsQuiet (record e { reads = r })
tick-IsQuiet r e q = record { state = q.state; flag = q.flag; flushed = q.flushed }

and-false : (b : Bool) → b && false ≡ false
and-false b = ground arith

module _ (udccsr0 : ℕ → Csr) (udcdr0 : ℕ → ℕ) where
  abbrev Quietly : Option Ep0 → Type 0
  Quietly o = (e' : Ep0) × (o ≡ some e') × IsQuiet e'

  queue-IsQuiet :
      (bytes : List ℕ) (req act : ℕ) (e : Ep0)
      → act ≤ length bytes
      → IsQuiet e
      → Quietly (queue_and_start_write udccsr0 udcdr0 bytes req act e)
  queue-IsQuiet bytes req act e h q =
      let (e', same, s) =
        queue_and_start_write-IsSent udccsr0 udcdr0 bytes req act e (omega arith) q.flag in
      (
        e',
        same,
        record { state = ap in_data_phase s.state; flag = s.flag; flushed = s.flushed ∙ q.flushed },
      )

  send_string-IsQuiet :
      (p : Option (List ℕ)) (req : ℕ) (e : Ep0)
      → AreWhole (p ∷ [])
      → IsQuiet e
      → Quietly (send_string udccsr0 udcdr0 p req e)
  unfolding send_string
  send_string-IsQuiet none req e w q = (e, refl, q)
  send_string-IsQuiet (some s) req e w q =
      let (b, same, h) = w.0 in rw same (queue-IsQuiet s req b e h q)

  read_words-only_reads :
      (n : ℕ) (e : Ep0) → (r : ℕ) × ((read_words udccsr0 udcdr0 n e).1 ≡ record e { reads = r })
  unfolding read_words
  read_words-only_reads zero e = (suc e.reads, refl)
  read_words-only_reads (suc n) e =
      let (r, same) = read_words-only_reads n (record e { reads = suc (suc e.reads) }) in
      elim (Bool-cases (udccsr0 e.reads).rne) [
        | inl t ↦ rw t (r, same)
        | inr t ↦ rw t (suc e.reads, refl)
      ]

  read_fifo-IsQuiet : (e : Ep0) → IsQuiet e → IsQuiet (read_fifo udccsr0 udcdr0 e).1
  unfolding read_fifo
  read_fifo-IsQuiet e q =
      let (r, same) = read_words-only_reads 2 (record e { reads = suc e.reads }) in
      elim (Bool-cases ((udccsr0 e.reads).sa && (udccsr0 e.reads).opc)) [
        | inl t ↦ rw (t, same) (ready-IsQuiet (record e { reads = r }) (tick-IsQuiet r e q))
        | inr t ↦ rw t (ready-IsQuiet (record e { reads = suc e.reads }) (tick-IsQuiet _ e q))
      ]

  get_descriptor-IsQuiet :
      (desc : Desc) (c : Ctl) (req : Request) (e : Ep0)
      → IsDescribed desc c
      → IsQuiet e
      → Quietly (get_descriptor udccsr0 udcdr0 desc c req e)
  unfolding get_descriptor
  get_descriptor-IsQuiet desc c req e d q =
      let kind = req.w_value / 256 in
      elim (Bool-cases (kind == 1)) [
        | inl k ↦
            let (b, same, h) = d.dev in rw (k, same) (queue-IsQuiet desc.dev req.w_length b e h q)
        | inr k ↦ elim (Bool-cases (kind == 2)) [
          | inl l ↦
              let (n, len, count, sum, h) = d.configs in
              rw (k, l, count, sum) (queue-IsQuiet desc.cdb req.w_length len e h q)
          | inr l ↦ elim (Bool-cases (kind == 3)) [
            | inl m ↦
                let (p, found, w) = string_found desc c (req.w_value % 256) d in
                rw (k, l, m, found) (send_string-IsQuiet p req.w_length e w q)
            | inr m ↦ rw (k, l, m) (e, refl, q)
          ]
        ]
      ]

  handle_request-IsQuiet :
      (desc : Desc) (c : Ctl) (words : List ℕ) (e : Ep0)
      → IsDescribed desc c
      → IsQuiet e
      → Quietly (handle_request udccsr0 udcdr0 desc c words e)
  unfolding handle_request
  handle_request-IsQuiet desc c [] e d q = (write_csr write_fst e, refl, stall-IsQuiet e q)
  handle_request-IsQuiet desc c (low ∷ []) e d q = (write_csr write_fst e, refl, stall-IsQuiet e q)
  handle_request-IsQuiet desc c (low ∷ high ∷ []) e d q =
      let req = request low high in
      elim (Bool-cases (req.bm_request_type / 16 % 4 == 0)) [
        | inl t ↦ elim (Bool-cases (req.b_request == 6)) [
          | inl g ↦ rw (t, g) (get_descriptor-IsQuiet desc c req e d q)
          | inr g ↦ rw (t, g) (e, refl, q)
        ]
        | inr t ↦ rw t (e, refl, q)
      ]
  handle_request-IsQuiet desc c (low ∷ high ∷ more ∷ ws) e d q =
      (write_csr write_fst e, refl, stall-IsQuiet e q)

  -- With whole descriptors and no transfer under way, whatever the host sends and the registers show,
  -- the handler returns, and again no transfer is under way; the branch that flushes the FIFO for a
  -- status stage that comes too early is never taken.
  pub sh_setup_begin-IsQuiet :
      (desc : Desc) (c : Ctl) (e : Ep0)
      → IsDescribed desc c
      → IsQuiet e
      → Quietly (sh_setup_begin udccsr0 udcdr0 desc c e)
  unfolding sh_setup_begin
  sh_setup_begin-IsQuiet desc c e d q =
      let e2 : Ep0 = record e { reads = suc (suc e.reads) } in
      let q2 = tick-IsQuiet (suc (suc e.reads)) e q in
      elim (Bool-cases (udccsr0 e.reads).opc) [
        | inl o ↦ elim (Bool-cases (udccsr0 (suc e.reads)).rne) [
          | inl r ↦
              rw (o, q.state, and-false, r)
                (handle_request-IsQuiet desc c (read_fifo udccsr0 udcdr0 e2).0
                  (read_fifo udccsr0 udcdr0 e2).1 d (read_fifo-IsQuiet e2 q2))
          | inr r ↦ rw (o, q.state, and-false, r) (e2, refl, q2)
        ]
        | inr o ↦ rw o (_, refl, tick-IsQuiet (suc e.reads) e q)
      ]
