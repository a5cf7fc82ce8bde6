-- ===== src/Pcap/Written.antt =====
-- What src/blob/pcap.c writes to a register, as the chip sees it.
use gen_blob.Base.{
  ℕ, zero, suc, ◌*◌, ◌/◌, ◌^◌, ◌≡◌, ◌∙◌, refl, ap, subst, Bool, true, false, not, List, [], ◌∷◌,
  ◌++◌, ◌==◌, Bool-cases, inl, inr, append_assoc, arith, bit_and, test, bit_and-power,
}
use gen_blob.Pcap.{
  Pcap, level, clk, mosi, pin, gpio_clk_control, gpio_frm_control, gpio_txd_control, pulse,
  start_frame, write_loop, gpio_write,
}
use gen_blob.Pcap.Wire.{Wire, step, wire, down, select, deselect}

-- A chip that is selected, with the clock low, after some bits.
abbrev pub in_frame : Bool → List Bool → List (List Bool) → Wire
in_frame d bs fs = record { clock = false; data_level = d; selected = true; bits = bs; frames = fs }

-- A turn sends a bit.
pub pulse_sends :
    (inverted : Bool) (w : Wire) (d : Bool) (bs : List Bool) (fs : List (List Bool)) (v : ℕ)
    (p : Pcap)
    → wire inverted w p.pins ≡ in_frame d bs fs
    → wire inverted w (pulse (gpio_txd_control v p)).pins
      ≡ in_frame (not (v == 0)) (bs ++ not (v == 0) ∷ []) fs
unfolding pulse gpio_txd_control gpio_clk_control pin wire
pulse_sends inverted w d bs fs v p h =
    ap
      (λ u.
        step inverted (level clk false)
          (step inverted (level clk true) (step inverted (level mosi (not (v == 0))) u)))
      h

pub half : (k : ℕ) → 2 ^ suc k / 2 ≡ 2 ^ k
half k = let twice : 2 ^ suc k ≡ 2 * 2 ^ k = omega arith in omega arith

-- The loop sends the bits of the value from the one of the mask down.
write_loop_sends :
    (k : ℕ) (inverted : Bool) (w : Wire) (d : Bool) (bs : List Bool) (fs : List (List Bool)) (v : ℕ)
    (p : Pcap)
    → wire inverted w p.pins ≡ in_frame d bs fs
    → wire inverted w (write_loop (suc k) v (2 ^ k) p).pins
      ≡ in_frame (test 0 v) (bs ++ down (suc k) (λ i. test i v)) fs
unfolding write_loop
write_loop_sends zero inverted w d bs fs v p h =
    pulse_sends inverted w d bs fs (bit_and v (2 ^ 0)) p h
    ∙ ap (λ b. in_frame b (bs ++ b ∷ []) fs) (bit_and-power 0 v)
write_loop_sends (suc k) inverted w d bs fs v p h =
    let b = test (suc k) v in
    let sent =
      pulse_sends inverted w d bs fs (bit_and v (2 ^ suc k)) p h
      ∙ ap (λ b. in_frame b (bs ++ b ∷ []) fs) (bit_and-power (suc k) v) in
    ap
      (λ l.
        wire inverted w
          (write_loop (suc k) v l (pulse (gpio_txd_control (bit_and v (2 ^ suc k)) p))).pins)
      (half k)
    ∙ write_loop_sends k inverted w b (bs ++ b ∷ []) fs v
        (pulse (gpio_txd_control (bit_and v (2 ^ suc k)) p)) sent
    ∙ ap (λ l. in_frame (test 0 v) l fs) (append_assoc bs (b ∷ []) (down (suc k) (λ i. test i v)))

-- The chip is not selected.
abbrev pub Idle : Bool → Wire → Pcap → Type 0
Idle inverted w p = (wire inverted w p.pins).selected ≡ false

idle_start :
    (u : Wire)
    → u.selected ≡ false
    → select (record (deselect (record u { clock = false })) { data_level = false })
      ≡ in_frame false [] u.frames
idle_start u idle = rw idle refl

started_at :
    (inverted : Bool) (w : Wire) (p : Pcap)
    → Idle inverted w p
    → wire inverted w (start_frame (record p { operate_pin_with_inverter = inverted })).pins
      ≡ in_frame false [] (wire inverted w p.pins).frames
unfolding start_frame gpio_txd_control gpio_clk_control gpio_frm_control pin wire
started_at true w p idle = idle_start (wire true w p.pins) idle
started_at false w p idle = idle_start (wire false w p.pins) idle

-- A frame begins without bits, with the data wire low.
pub start_frame-in_frame :
    (w : Wire) (p : Pcap)
    → Idle p.operate_pin_with_inverter w p
    → wire p.operate_pin_with_inverter w (start_frame p).pins
      ≡ in_frame false [] (wire p.operate_pin_with_inverter w p.pins).frames
start_frame-in_frame w p idle = started_at p.operate_pin_with_inverter w p idle

-- A wire on which the chip is no longer selected, after a frame.
abbrev pub after_frame : Bool → List Bool → List (List Bool) → Wire
after_frame d bs fs = record {
  clock = false;
  data_level = d;
  selected = false;
  bits = bs;
  frames = bs ∷ fs;
}

ended_at :
    (inverted : Bool) (w : Wire) (d : Bool) (bs : List Bool) (fs : List (List Bool)) (p : Pcap)
    → wire inverted w p.pins ≡ in_frame d bs fs
    → wire inverted w (gpio_frm_control 0 (record p { operate_pin_with_inverter = inverted })).pins
      ≡ after_frame d bs fs
unfolding gpio_frm_control pin wire
ended_at true w d bs fs p h = ap deselect h
ended_at false w d bs fs p h = ap deselect h

-- The end of a frame.
pub gpio_frm_control-after_frame :
    (w : Wire) (d : Bool) (bs : List Bool) (fs : List (List Bool)) (p : Pcap)
    → wire p.operate_pin_with_inverter w p.pins ≡ in_frame d bs fs
    → wire p.operate_pin_with_inverter w (gpio_frm_control 0 p).pins ≡ after_frame d bs fs
gpio_frm_control-after_frame w d bs fs p h = ended_at p.operate_pin_with_inverter w d bs fs p h

-- The pins are all that a frame changes.
abbrev pub Keeps : Pcap → Pcap → Type 0
Keeps p q = q ≡ record p { pins = q.pins }

pub pulse-Keeps : (v : ℕ) (p : Pcap) → Keeps p (pulse (gpio_txd_control v p))
unfolding pulse gpio_txd_control gpio_clk_control pin
pulse-Keeps v p = refl

pub start_frame-Keeps : (p : Pcap) → Keeps p (start_frame p)
unfolding start_frame gpio_txd_control gpio_clk_control gpio_frm_control pin
start_frame-Keeps p = elim (Bool-cases p.operate_pin_with_inverter) [
  | inl e ↦ rw e refl
  | inr e ↦ rw e refl
]

pub gpio_frm_control-Keeps : (v : ℕ) (p : Pcap) → Keeps p (gpio_frm_control v p)
unfolding gpio_frm_control pin
gpio_frm_control-Keeps v p = elim (Bool-cases p.operate_pin_with_inverter) [
  | inl e ↦ rw e refl
  | inr e ↦ rw e refl
]

pub Keeps-trans : (p q r : Pcap) → Keeps p q → Keeps q r → Keeps p r
Keeps-trans p q r hq hr = hr ∙ ap {A = Pcap} (λ x. record x { pins = r.pins }) hq

write_loop-Keeps : (k v l : ℕ) (p : Pcap) → Keeps p (write_loop k v l p)
unfolding write_loop
write_loop-Keeps zero v l p = refl
write_loop-Keeps (suc k) v l p =
    let q = pulse (gpio_txd_control (bit_and v l) p) in
    Keeps-trans p q (write_loop k v (l / 2) q) (pulse-Keeps (bit_and v l) p)
      (write_loop-Keeps k v (l / 2) q)

pub gpio_write-Keeps : (v : ℕ) (p : Pcap) → Keeps p (gpio_write v p)
unfolding gpio_write
gpio_write-Keeps v p =
    let q = write_loop 32 v 0x80000000 (start_frame p) in
    Keeps-trans p q (gpio_frm_control 0 q)
      (Keeps-trans p (start_frame p) q (start_frame-Keeps p)
        (write_loop-Keeps 32 v 0x80000000 (start_frame p)))
      (gpio_frm_control-Keeps 0 q)

-- The end of a frame that began with the same setting of the inverter.
pub frame_ends :
    (w : Wire) (d : Bool) (bs : List Bool) (fs : List (List Bool)) (p q : Pcap)
    → Keeps p q
    → wire p.operate_pin_with_inverter w q.pins ≡ in_frame d bs fs
    → wire p.operate_pin_with_inverter w (gpio_frm_control 0 q).pins ≡ after_frame d bs fs
frame_ends w d bs fs p q keeps h =
    subst
      (λ i.
        wire i w q.pins ≡ in_frame d bs fs
        → wire i w (gpio_frm_control 0 q).pins ≡ after_frame d bs fs)
      (ap (λ x. x.operate_pin_with_inverter) keeps) (gpio_frm_control-after_frame w d bs fs q) h

-- A frame of the 32 bits of the value.
pub gpio_write_frame :
    (w : Wire) (v : ℕ) (p : Pcap)
    → Idle p.operate_pin_with_inverter w p
    → wire p.operate_pin_with_inverter w (gpio_write v p).pins
      ≡ after_frame
          (test 0 v)
          (down 32 (λ i. test i v))
          (wire p.operate_pin_with_inverter w p.pins).frames
unfolding gpio_write
gpio_write_frame w v p idle =
    let inverted = p.operate_pin_with_inverter in
    let fs = (wire inverted w p.pins).frames in
    let start = start_frame p in
    frame_ends w (test 0 v) (down 32 (λ i. test i v)) fs p (write_loop 32 v 0x80000000 start)
      (Keeps-trans p start (write_loop 32 v 0x80000000 start) (start_frame-Keeps p)
        (write_loop-Keeps 32 v 0x80000000 start))
      (write_loop_sends 31 inverted w false [] fs v start (start_frame-in_frame w p idle))
