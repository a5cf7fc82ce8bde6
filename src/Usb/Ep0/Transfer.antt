-- ===== src/Usb/Ep0/Transfer.antt =====
-- The data stage of a control transfer on endpoint 0 (queue_and_start_write, sh_write and write_fifo
-- of src/blob/usb_ep0.c).
use gen_blob.Base.{
  ℕ, zero, suc, ◌-◌, ◌≤◌, ◌<◌, Bool, true, false, ◌&&◌, List, [], ◌∷◌, ◌++◌, some, ◌≡◌, refl, ◌∙◌,
  sym, ap, arith, ◌⊎◌, inl, inr, leb, ltb, ◌==◌, if◌then◌else◌, take, drop, min, length, append-nil,
  lt_eq_gt, subst, Bool-cases, length-take, length-drop, take-append-take,
}
use gen_blob.Usb.Ep0.Stage.{
  IsStage, short_packet, full_packet, flushes, IsSent, prepend-IsSent, written, turn,
  finish_write-IsKept, sh_write-end, sh_write-next, turn_finish,
}
use gen_blob.Usb.Ep0.{Csr, Ep0, ep0_end_xfer, ep0_in_data_phase, sh_write, queue_and_start_write}

module _ (udccsr0 : ℕ → Csr) (udcdr0 : ℕ → ℕ) where
  -- The only packet of the turn udccsr0 udcdr0, where it is the last one.
  last-IsStage :
      (full : Bool) (e : Ep0)
      → e.bytes_left ≤ length e.wr_p
      → (e.bytes_left < 16) ⊎ ((e.bytes_left ≡ 16) × (full ≡ true))
      → IsStage full (take e.bytes_left e.wr_p) (
          record {
            bytes = take (min e.bytes_left 16) e.wr_p;
            short = (e.bytes_left - min e.bytes_left 16 == 0) && ltb (min e.bytes_left 16) 16;
          }
          ∷ [])
  last-IsStage full e h (inl l) =
      let m : min e.bytes_left 16 ≡ e.bytes_left = omega arith in
      let z : (e.bytes_left - e.bytes_left == 0) && ltb e.bytes_left 16 ≡ true = ground arith in
      rw (m, z) (short_packet _ (omega (arith, length-take e.bytes_left e.wr_p)))
  last-IsStage full e h (inr (l, f)) = rw l (full_packet _ (omega (arith, length-take 16 e.wr_p)) f)

  -- The turn udccsr0 udcdr0 of the loop that ends the transfer.
  sh_write_last :
      (fuel : ℕ) (e : Ep0)
      → e.bytes_left ≤ length e.wr_p
      → (e.bytes_left < 16) ⊎ ((e.bytes_left ≡ 16) × (e.req_flag ≡ true))
      → (e' : Ep0) × (sh_write udccsr0 udcdr0 (suc fuel) e ≡ some e')
        × IsSent e.req_flag (take e.bytes_left e.wr_p) e e'
  sh_write_last fuel e h l =
      let k = finish_write-IsKept udccsr0 udcdr0 e.bytes_left (written udccsr0 udcdr0 e) in
      let t = turn_finish udccsr0 udcdr0 e (ground arith) in
      let ends : (turn udccsr0 udcdr0 e).ep0_state ≡ ep0_end_xfer =
        ap (λ x. x.ep0_state) t ∙ k.state ∙ ground arith in
      (
        turn udccsr0 udcdr0 e,
        sh_write-end udccsr0 udcdr0 fuel e h ends,
        record {
          state = ends;
          flag = ap (λ x. x.req_flag) t ∙ k.flag;
          no_bytes = ap (λ x. x.wr_p) t ∙ k.bytes;
          none_left = ap (λ x. x.bytes_left) t ∙ k.left ∙ ground arith;
          address = ap (λ x. x.address) t ∙ k.address;
          flushed = ap (λ x. flushes x.status) t ∙ k.flushed;
          packets =
              record {
                bytes = take (min e.bytes_left 16) e.wr_p;
                short = (e.bytes_left - min e.bytes_left 16 == 0) && ltb (min e.bytes_left 16) 16;
              }
              ∷ [];
          fifo = ap (λ x. x.fifo) t ∙ k.fifo;
          stage = last-IsStage e.req_flag e h l;
        },
      )

  turn_on : (e : Ep0) → 16 < e.bytes_left → turn udccsr0 udcdr0 e ≡ written udccsr0 udcdr0 e
  turn_on e h = let z : e.bytes_left - min e.bytes_left 16 == 0 ≡ false = ground arith in rw z refl

  full_turn :
      (e : Ep0)
      → 16 ≤ e.bytes_left
      → (written udccsr0 udcdr0 e).fifo
        ≡ e.fifo ++ record { bytes = take 16 e.wr_p; short = false } ∷ []
  full_turn e h =
      let m : min e.bytes_left 16 ≡ 16 = omega arith in
      rw m (ap (λ b. e.fifo ++ record { bytes = take 16 e.wr_p; short = b } ∷ []) (ground arith))

  -- A turn udccsr0 udcdr0 that leaves bytes behind, and the rest of the loop.
  long_turn :
      (fuel : ℕ) (e e' : Ep0)
      → e.bytes_left ≤ length e.wr_p
      → 16 < e.bytes_left
      → e.ep0_state ≡ ep0_in_data_phase
      → sh_write udccsr0 udcdr0 fuel (written udccsr0 udcdr0 e) ≡ some e'
      → IsSent e.req_flag (take (e.bytes_left - 16) (drop 16 e.wr_p)) (written udccsr0 udcdr0 e) e'
      → (sh_write udccsr0 udcdr0 (suc fuel) e ≡ some e')
        × IsSent e.req_flag (take e.bytes_left e.wr_p) e e'
  long_turn fuel e e' h g d same sent =
      let t = turn_on e g in
      let whole : take 16 e.wr_p ++ take (e.bytes_left - 16) (drop 16 e.wr_p)
          ≡ take e.bytes_left e.wr_p =
        take-append-take 16 (e.bytes_left - 16) e.wr_p ∙ ap (λ n. take n e.wr_p) (omega arith) in
      let behind : 0 < length (take (e.bytes_left - 16) (drop 16 e.wr_p)) =
        omega (arith, length-take (e.bytes_left - 16) (drop 16 e.wr_p), length-drop 16 e.wr_p) in
      (
        sh_write-next udccsr0 udcdr0 fuel e h (ap (λ x. x.ep0_state) t ∙ d)
            ∙ ap (sh_write udccsr0 udcdr0 fuel) t
            ∙ same,
        subst (λ bytes. IsSent e.req_flag bytes e e') whole
            (prepend-IsSent e (written udccsr0 udcdr0 e) e' (take 16 e.wr_p)
              (omega (arith, length-take 16 e.wr_p)) (inr behind) (full_turn e (omega arith)) refl
              refl sent),
      )

  -- A turn udccsr0 udcdr0 that sends the last 16 bytes, and the empty packet behind them.
  empty_turn :
      (fuel : ℕ) (e : Ep0)
      → e.bytes_left ≤ length e.wr_p
      → e.bytes_left ≡ 16
      → e.req_flag ≡ false
      → e.ep0_state ≡ ep0_in_data_phase
      → (e' : Ep0) × (sh_write udccsr0 udcdr0 (suc (suc fuel)) e ≡ some e')
        × IsSent e.req_flag (take e.bytes_left e.wr_p) e e'
  empty_turn fuel e h m f d =
      let k = finish_write-IsKept udccsr0 udcdr0 e.bytes_left (written udccsr0 udcdr0 e) in
      let t = turn_finish udccsr0 udcdr0 e (omega arith) in
      let stays : (turn udccsr0 udcdr0 e).ep0_state ≡ ep0_in_data_phase =
        ap (λ x. x.ep0_state) t ∙ k.state ∙ ground arith in
      let flag : (turn udccsr0 udcdr0 e).req_flag ≡ false = ap (λ x. x.req_flag) t ∙ k.flag in
      let left : (turn udccsr0 udcdr0 e).bytes_left ≡ 0 =
        ap (λ x. x.bytes_left) t ∙ k.left ∙ ground arith in
      let (e', same, sent) =
        sh_write_last fuel (turn udccsr0 udcdr0 e) (omega arith) (inl (omega arith)) in
      let rest : IsSent false [] (turn udccsr0 udcdr0 e) e' =
        subst (λ b. IsSent b [] (turn udccsr0 udcdr0 e) e') flag
          (subst
            (λ n.
              IsSent (turn udccsr0 udcdr0 e).req_flag (take n (turn udccsr0 udcdr0 e).wr_p)
                (turn udccsr0 udcdr0 e) e')
            left sent) in
      let sent16 : IsSent false (take 16 e.wr_p) e e' =
        subst (λ bytes. IsSent false bytes e e') (append-nil (take 16 e.wr_p))
          (prepend-IsSent e (turn udccsr0 udcdr0 e) e' (take 16 e.wr_p)
            (omega (arith, length-take 16 e.wr_p)) (inl refl)
            (ap (λ x. x.fifo) t ∙ k.fifo ∙ full_turn e (omega arith))
            (ap (λ x. x.address) t ∙ k.address) (ap (λ x. flushes x.status) t ∙ k.flushed) rest) in
      (
        e',
        sh_write-next udccsr0 udcdr0 (suc fuel) e h stays ∙ same,
        subst (λ b. IsSent b (take e.bytes_left e.wr_p) e e') (sym f)
            (subst (λ n. IsSent false (take n e.wr_p) e e') (sym m) sent16),
      )

  sh_write-IsSent :
      (fuel : ℕ) (e : Ep0)
      → e.bytes_left ≤ length e.wr_p
      → e.bytes_left < fuel
      → e.ep0_state ≡ ep0_in_data_phase
      → (e' : Ep0) × (sh_write udccsr0 udcdr0 fuel e ≡ some e')
        × IsSent e.req_flag (take e.bytes_left e.wr_p) e e'
  sh_write-IsSent zero e h l d = absurd (omega arith)
  sh_write-IsSent (suc zero) e h l d = sh_write_last 0 e h (inl (omega arith))
  sh_write-IsSent (suc (suc fuel)) e h l d = elim (lt_eq_gt e.bytes_left 16) [
    | inl below ↦ sh_write_last (suc fuel) e h (inl below)
    | inr (inl m) ↦ elim (Bool-cases e.req_flag) [
      | inl f ↦ sh_write_last (suc fuel) e h (inr (m, f))
      | inr f ↦ empty_turn fuel e h m f d
    ]
    | inr (inr g) ↦
        let (e', same, sent) =
          sh_write-IsSent (suc fuel) (written udccsr0 udcdr0 e)
            (omega (arith, length-drop (min e.bytes_left 16) e.wr_p)) (omega arith) d in
        let sixteen : min e.bytes_left 16 ≡ 16 = omega arith in
        let (runs, all) = long_turn (suc fuel) e e' h g d same (
          subst
            (λ n.
              IsSent e.req_flag (take (e.bytes_left - n) (drop n e.wr_p)) (written udccsr0 udcdr0 e)
                e')
            sixteen sent) in
        (e', runs, all)
  ]

  -- With enough bytes behind the pointer and the flag clear between transfers, the loop ends: it has
  -- sent the first `min act req` bytes as a data stage, which ends on a full packet only if the host
  -- gets as many bytes as it asked for, and the flag is clear again.
  pub queue_and_start_write-IsSent :
      (bytes : List ℕ) (req act : ℕ) (e : Ep0)
      → min act req ≤ length bytes
      → e.req_flag ≡ false
      → (e' : Ep0) × (queue_and_start_write udccsr0 udcdr0 bytes req act e ≡ some e')
        × IsSent (leb req act) (take (min act req) bytes) e e'
  unfolding queue_and_start_write
  queue_and_start_write-IsSent bytes req act e h f =
      let start : Ep0 = record e {
        wr_p = bytes;
        bytes_left = min act req;
        req_flag = if min act req == req then true else e.req_flag;
        ep0_state = ep0_in_data_phase;
      } in
      let (e', same, sent) = sh_write-IsSent (suc (min act req)) start h (omega arith) refl in
      let full : start.req_flag ≡ leb req act = ground arith in
      let sent' : IsSent (leb req act) (take (min act req) bytes) start e' =
        subst (λ b. IsSent b (take (min act req) bytes) start e') full sent in
      (
        e',
        same,
        record {
          state = sent'.state;
          flag = sent'.flag;
          no_bytes = sent'.no_bytes;
          none_left = sent'.none_left;
          address = sent'.address;
          flushed = sent'.flushed;
          packets = sent'.packets;
          fifo = sent'.fifo;
          stage = sent'.stage;
        },
      )
