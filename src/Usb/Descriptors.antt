-- ===== src/Usb/Descriptors.antt =====
-- The descriptors that the device shows to the host: initialize_descriptors and the walk over the
-- configurations in src/blob/usb_ctl.c, usb_mot_open and ezx_usb_open in src/blob/usb-mot1.c.
pub mod Shown
use gen_blob.Base.{ℕ, suc, ◌+◌, ◌*◌, List, [], ◌∷◌, ◌++◌, Option, none, some, drop, length, ◌>>=◌}
use gen_blob.Usb.Control.{Ctl, pxa_usb_set_string_descriptor}
use gen_blob.Usb.Ep0.{Desc}

-- The device descriptor, version 1.1 and packets of 16 bytes on endpoint 0.
unfoldable pub initialize_descriptors : Desc → Desc
initialize_descriptors desc = record desc {
  dev = 18 ∷ 1 ∷ 16 ∷ 1 ∷ 0 ∷ 0 ∷ 0 ∷ 16 ∷ 0 ∷ 0 ∷ 0 ∷ 0 ∷ 1 ∷ 0 ∷ 0 ∷ 0 ∷ 0 ∷ 1 ∷ [];
}

-- The texts of ezx_str, by their codes: "Motorola Inc.", "Motorola Ezx Bootloader", "Blank Ezx",
-- "Flashed Ezx", "Motorola Ezx Flash", "Motorola Ezx AP Flash" and "Motorola Flash".
abbrev pub ezx_str : List (List ℕ)
ezx_str =
    (b'M' ∷ b'o' ∷ b't' ∷ b'o' ∷ b'r' ∷ b'o' ∷ b'l' ∷ b'a' ∷ b' ' ∷ b'I' ∷ b'n' ∷ b'c' ∷ b'.' ∷ [])
    ∷ (b'M' ∷ b'o' ∷ b't' ∷ b'o' ∷ b'r' ∷ b'o' ∷ b'l' ∷ b'a' ∷ b' ' ∷ b'E' ∷ b'z' ∷ b'x' ∷ b' '
        ∷ b'B' ∷ b'o' ∷ b'o' ∷ b't' ∷ b'l' ∷ b'o' ∷ b'a' ∷ b'd' ∷ b'e' ∷ b'r' ∷ [])
    ∷ (b'B' ∷ b'l' ∷ b'a' ∷ b'n' ∷ b'k' ∷ b' ' ∷ b'E' ∷ b'z' ∷ b'x' ∷ [])
    ∷ (b'F' ∷ b'l' ∷ b'a' ∷ b's' ∷ b'h' ∷ b'e' ∷ b'd' ∷ b' ' ∷ b'E' ∷ b'z' ∷ b'x' ∷ [])
    ∷ (b'M' ∷ b'o' ∷ b't' ∷ b'o' ∷ b'r' ∷ b'o' ∷ b'l' ∷ b'a' ∷ b' ' ∷ b'E' ∷ b'z' ∷ b'x' ∷ b' '
        ∷ b'F' ∷ b'l' ∷ b'a' ∷ b's' ∷ b'h' ∷ [])
    ∷ (b'M' ∷ b'o' ∷ b't' ∷ b'o' ∷ b'r' ∷ b'o' ∷ b'l' ∷ b'a' ∷ b' ' ∷ b'E' ∷ b'z' ∷ b'x' ∷ b' '
        ∷ b'A' ∷ b'P' ∷ b' ' ∷ b'F' ∷ b'l' ∷ b'a' ∷ b's' ∷ b'h' ∷ [])
    ∷ (b'M' ∷ b'o' ∷ b't' ∷ b'o' ∷ b'r' ∷ b'o' ∷ b'l' ∷ b'a' ∷ b' ' ∷ b'F' ∷ b'l' ∷ b'a' ∷ b's'
        ∷ b'h' ∷ [])
    ∷ []

-- Two bytes for each character.
unfoldable pub wide : List ℕ → List ℕ
wide [] = []
wide (c ∷ cs) = c ∷ 0 ∷ wide cs

unfoldable pub string_descriptor : List ℕ → List ℕ
unfolding wide
string_descriptor s = (2 * length s + 2) ∷ 3 ∷ wide s

-- The loop over the texts. (The descriptors stand one behind the other in sd_buf.)
unfoldable pub set_strings : List (List ℕ) → ℕ → Ctl → Option Ctl
unfolding string_descriptor
set_strings [] index c = some c
set_strings (s ∷ ss) index c = do
  (c', code) ← pxa_usb_set_string_descriptor index (some (string_descriptor s)) c
  set_strings ss (suc index) c'

-- The vendor, the product, their texts, and one configuration.
unfoldable pub set_product : Desc → Desc
set_product desc = record desc {
  dev = 18 ∷ 1 ∷ 16 ∷ 1 ∷ 0 ∷ 0 ∷ 0 ∷ 16 ∷ 184 ∷ 34 ∷ 239 ∷ 190 ∷ 1 ∷ 0 ∷ 1 ∷ 2 ∷ 0 ∷ 1 ∷ [];
}

-- The configuration with its interface, endpoint 1 to the host and endpoint 2 from it.
abbrev pub configuration : List ℕ
configuration =
    (9 ∷ 2 ∷ 32 ∷ 0 ∷ 1 ∷ 1 ∷ 5 ∷ 192 ∷ 5 ∷ [])
    ++ (9 ∷ 4 ∷ 0 ∷ 0 ∷ 2 ∷ 255 ∷ 50 ∷ 255 ∷ 6 ∷ [])
    ++ (7 ∷ 5 ∷ 129 ∷ 2 ∷ 64 ∷ 0 ∷ 0 ∷ [])
    ++ (7 ∷ 5 ∷ 2 ∷ 2 ∷ 64 ∷ 0 ∷ 0 ∷ [])

unfoldable pub set_configuration : Desc → Desc
set_configuration desc = record desc { cdb = configuration ++ drop 32 desc.cdb }
