-- ===== src/Pcap/Sampling.antt =====
-- The turns in which src/blob/pcap.c asks for a register and reads its bits.
use gen_blob.Base.{
  ℕ, zero, suc, ◌+◌, ◌*◌, ◌/◌, ◌^◌, ◌≡◌, ◌∙◌, refl, sym, ap, Bool, true, false, not, ◌||◌, ◌&&◌,
  List, [], ◌∷◌, ◌++◌, append_assoc, ◌==◌, ltb, if◌then◌else◌, inl, inr, lt_eq_gt, ==_self, ne→==,
  lt→ltb, le→ltb, length, length-append, subst, arith, bit_and, bit_or, test, test-bit_or,
  test_power, test_zero, bit_and-power,
}
use gen_blob.Pcap.{
  Pcap, PinWrite, level, clk, pin, gpio_clk_control, gpio_txd_control, gpio_rxd_get_status, pulse,
  address_loop, read_loop,
}
use gen_blob.Pcap.Wire.{Wire, step, wire, down}
use gen_blob.Pcap.Written.{in_frame, pulse_sends, half, Keeps, Keeps-trans, pulse-Keeps}

-- The bits by which a register is asked for: a zero for a read, and its number.
abbrev pub request : ℕ → List Bool
request r = false ∷ down 5 (λ i. test i r)

-- The chip shows bit `k` of `v` while it has seen the request, a bit without meaning, and the
-- clock for the bits above `k`.
abbrev pub Answers : (List PinWrite → Bool) → Bool → Bool → Wire → ℕ → ℕ → Type 0
Answers shows inverted rxd_inverted w r v =
    (pins : List PinWrite) (d : Bool) (bs : List Bool) (fs : List (List Bool)) (k : ℕ)
    → wire inverted w pins ≡ in_frame d (request r ++ bs) fs
    → length bs + k ≡ 25
    → shows pins ≡ (if rxd_inverted then not (test k v) else test k v)

-- A turn that leaves the data wire as it is.
pub pulse_again :
    (inverted : Bool) (w : Wire) (d : Bool) (bs : List Bool) (fs : List (List Bool)) (p : Pcap)
    → wire inverted w p.pins ≡ in_frame d bs fs
    → wire inverted w (pulse p).pins ≡ in_frame d (bs ++ d ∷ []) fs
unfolding pulse gpio_clk_control pin wire
pulse_again inverted w d bs fs p h =
    ap (λ u. step inverted (level clk false) (step inverted (level clk true) u)) h

half_shifted : (k : ℕ) → 2 ^ suc k * 0x04000000 / 2 ≡ 2 ^ k * 0x04000000
half_shifted k = let twice : 2 ^ suc k ≡ 2 * 2 ^ k = omega arith in omega arith

shifted_back : (k : ℕ) → 2 ^ k * 0x04000000 / 0x04000000 ≡ 2 ^ k
shifted_back k = omega arith

-- The loop sends the number of the register.
pub address_loop_sends :
    (k : ℕ) (inverted : Bool) (w : Wire) (d : Bool) (bs : List Bool) (fs : List (List Bool)) (r : ℕ)
    (p : Pcap)
    → wire inverted w p.pins ≡ in_frame d bs fs
    → wire inverted w (address_loop (suc k) r (2 ^ k * 0x04000000) p).pins
      ≡ in_frame (test 0 r) (bs ++ down (suc k) (λ i. test i r)) fs
unfolding address_loop
address_loop_sends zero inverted w d bs fs r p h =
    pulse_sends inverted w d bs fs (bit_and r (2 ^ 0)) p h
    ∙ ap (λ b. in_frame b (bs ++ b ∷ []) fs) (bit_and-power 0 r)
address_loop_sends (suc k) inverted w d bs fs r p h =
    let b = test (suc k) r in
    let q = pulse (gpio_txd_control (bit_and r (2 ^ suc k)) p) in
    let sent =
      pulse_sends inverted w d bs fs (bit_and r (2 ^ suc k)) p h
      ∙ ap (λ b. in_frame b (bs ++ b ∷ []) fs) (bit_and-power (suc k) r) in
    ap
      (λ m.
        wire inverted w
          (address_loop (suc k) r (2 ^ suc k * 0x04000000 / 2)
            (pulse (gpio_txd_control (bit_and r m) p))).pins)
      (shifted_back (suc k))
    ∙ ap (λ l. wire inverted w (address_loop (suc k) r l q).pins) (half_shifted k)
    ∙ address_loop_sends k inverted w b (bs ++ b ∷ []) fs r q sent
    ∙ ap (λ l. in_frame (test 0 r) l fs) (append_assoc bs (b ∷ []) (down (suc k) (λ i. test i r)))

pub address_loop-Keeps : (k r l : ℕ) (p : Pcap) → Keeps p (address_loop k r l p)
unfolding address_loop
address_loop-Keeps zero r l p = refl
address_loop-Keeps (suc k) r l p =
    let v = bit_and r (l / 0x04000000) in
    let q = pulse (gpio_txd_control v p) in
    Keeps-trans p q (address_loop k r (l / 2) q) (pulse-Keeps v p)
      (address_loop-Keeps k r (l / 2) q)

abbrev sample : Bool → ℕ
sample b = if b then 1 else 0

abbrev status_of : Bool → Bool → ℕ
status_of inverted s = if inverted then (if s then 0 else 1) else (if s then 1 else 0)

read_bit :
    (inverted s b : Bool) → s ≡ (if inverted then not b else b) → status_of inverted s ≡ sample b
read_bit true s true h = rw h refl
read_bit true s false h = rw h refl
read_bit false s true h = rw h refl
read_bit false s false h = rw h refl

pub pulse-Keeps_only : (p : Pcap) → Keeps p (pulse p)
unfolding pulse gpio_clk_control pin
pulse-Keeps_only p = refl

status_lem :
    (shows : List PinWrite → Bool) (p : Pcap) (b : Bool)
    → shows p.pins ≡ (if p.rxd_pin_with_inverter then not b else b)
    → gpio_rxd_get_status shows p ≡ sample b
unfolding gpio_rxd_get_status
status_lem shows p b h = read_bit p.rxd_pin_with_inverter (shows p.pins) b h

test-sample : (j k : ℕ) (b : Bool) → test j (2 ^ k * sample b) ≡ (b && (j == k))
test-sample j k true =
    let whole : 2 ^ k * 1 ≡ 2 ^ k = omega arith in ap (test j) whole ∙ test_power j k
test-sample j k false = let none : 2 ^ k * 0 ≡ 0 = omega arith in ap (test j) none ∙ test_zero j

below : (t x y : Bool) → ((t || (x && false)) || (true && y)) ≡ (t || (true && y))
below true x y = refl
below false true y = refl
below false false y = refl

here : (t x : Bool) → ((t || (x && true)) || (false && x)) ≡ (t || (true && x))
here true x = refl
here false true = refl
here false false = refl

above : (t x y : Bool) → ((t || (x && false)) || (false && y)) ≡ (t || (false && y))
above true x y = refl
above false true y = refl
above false false y = refl

-- Bit `k` joins the bits below it.
sample_in :
    (j k : ℕ) (t : Bool) (f : ℕ → Bool)
    → ((t || (f k && (j == k))) || (ltb j k && f j)) ≡ (t || (ltb j (suc k) && f j))
sample_in j k t f = elim (lt_eq_gt j k) [
  | inl h ↦
      rw (ne→== j k (λ e. omega arith), lt→ltb j k h, lt→ltb j (suc k) (omega arith))
        (below t (f k) (f j))
  | inr (inl e) ↦
      rw (e, ==_self k, le→ltb k k (omega arith), lt→ltb k (suc k) (omega arith)) (here t (f k))
  | inr (inr h) ↦
      rw (ne→== j k (λ e. omega arith), le→ltb j k (omega arith), le→ltb j (suc k) (omega arith))
        (above t (f k) (f j))
]

or_false : (b : Bool) → (b || false) ≡ b
or_false true = refl
or_false false = refl

-- What the turns for the bits below `n` read, and the wires behind them.
abbrev pub Sampled :
    (List PinWrite → Bool) → Wire → ℕ → List (List Bool) → ℕ → ℕ → Pcap → ℕ × Pcap → Type 0
Sampled shows w v fs n temp p result =
    ((j : ℕ) → test j result.0 ≡ (test j temp || (ltb j n && test j v)))
    × Keeps p result.1
    × ((d : Bool) × (bs : List Bool) × (wire p.operate_pin_with_inverter w result.1.pins
          ≡ in_frame d bs fs))

pub read_loop-Sampled :
    (shows : List PinWrite → Bool) (w : Wire) (r v n temp : ℕ) (d : Bool) (bs : List Bool)
    (fs : List (List Bool)) (p : Pcap)
    → Answers shows p.operate_pin_with_inverter p.rxd_pin_with_inverter w r v
    → wire p.operate_pin_with_inverter w p.pins ≡ in_frame d (request r ++ bs) fs
    → length bs + n ≡ 26
    → Sampled shows w v fs n temp p (read_loop shows n (2 ^ n / 2) temp p)
unfolding read_loop pulse gpio_clk_control pin
read_loop-Sampled shows w r v zero temp d bs fs p answers h count = (
  λ j.
      sym (or_false (test j temp))
      ∙ ap (λ b. test j temp || (b && test j v)) (sym (le→ltb j 0 (omega arith))),
  refl,
  (d, request r ++ bs, h),
)
read_loop-Sampled shows w r v (suc k) temp d bs fs p answers h count =
    let temp' = bit_or temp (2 ^ k * gpio_rxd_get_status shows p) in
    let shown = status_lem shows p (test k v) (answers p.pins d bs fs k h (omega arith)) in
    let next =
      pulse_again p.operate_pin_with_inverter w d (request r ++ bs) fs p h
      ∙ ap (λ l. in_frame d l fs) (append_assoc (request r) bs (d ∷ [])) in
    let (tests, keeps, behind) =
      read_loop-Sampled shows w r v k temp' d (bs ++ d ∷ []) fs (pulse p) answers next
        (omega (arith, length-append bs (d ∷ []))) in
    let joined : (j : ℕ) → test j temp' ≡ (test j temp || (test k v && (j == k))) = λ j.
      test-bit_or j temp (2 ^ k * gpio_rxd_get_status shows p)
      ∙ ap (λ s. test j temp || test j (2 ^ k * s)) shown
      ∙ ap (λ b. test j temp || b) (test-sample j k (test k v)) in
    subst (λ m. Sampled shows w v fs (suc k) temp p (read_loop shows (suc k) m temp p))
      (sym (half k))
      (
        λ j.
            tests j
            ∙ ap (λ b. b || (ltb j k && test j v)) (joined j)
            ∙ sample_in j k (test j temp) (λ i. test i v),
        keeps,
        behind,
      )
