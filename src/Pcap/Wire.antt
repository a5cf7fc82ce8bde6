-- ===== src/Pcap/Wire.antt =====
-- What the writes of src/blob/pcap.c to its pins are on the wires of the serial bus: a bit is the
-- level of the data wire where the clock goes up while the chip is selected, and a frame is the
-- list of the bits from a selection to its end.
use gen_blob.Base.{ℕ, zero, suc, Bool, true, false, not, ◌&&◌, if◌then◌else◌, List, [], ◌∷◌, ◌++◌}
use gen_blob.Pcap.{PinWrite, level, mode_out, port_off, clk, ce, mosi, miso}

pub record Wire : Type 0 where
  pub clock : Bool
  pub data_level : Bool
  pub selected : Bool
  pub bits : List Bool
  pub frames : List (List Bool)

abbrev pub rise : Wire → Wire
rise w =
    if w.selected && not w.clock
    then record w { clock = true; bits = w.bits ++ w.data_level ∷ [] }
    else record w { clock = true }

abbrev pub select : Wire → Wire
select w = if w.selected then w else record w { selected = true; bits = [] }

abbrev pub deselect : Wire → Wire
deselect w = if w.selected then record w { selected = false; frames = w.bits ∷ w.frames } else w

-- With whether the wire that selects the chip is inverted.
abbrev pub step : Bool → PinWrite → Wire → Wire
step inverted (level clk true) w = rise w
step inverted (level clk false) w = record w { clock = false }
step inverted (level mosi b) w = record w { data_level = b }
step false (level ce true) w = select w
step false (level ce false) w = deselect w
step true (level ce true) w = deselect w
step true (level ce false) w = select w
step inverted (level miso b) w = w
step inverted (mode_out p b) w = w
step inverted port_off w = w

-- The wires after the writes, the last of which comes first.
unfoldable pub wire : Bool → Wire → List PinWrite → Wire
wire inverted w0 [] = w0
wire inverted w0 (x ∷ xs) = step inverted x (wire inverted w0 xs)

-- The bits below `n` of what `f` says of each, the highest first.
abbrev pub down : ℕ → (ℕ → Bool) → List Bool
down zero f = []
down (suc n) f = f n ∷ down n f
