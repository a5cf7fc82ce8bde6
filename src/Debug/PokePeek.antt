-- ===== src/Debug/PokePeek.antt =====
-- What the command poke of src/blob/debug.c writes, peek shows.
use gen_blob.Base.{ℕ, ◌%◌, ◌^◌, ◌<◌, ◌≡◌, List, [], ◌∷◌, refl}
use gen_blob.Loader.Memory.{Memory}
use gen_blob.Debug.{ok, Width, number, first_char, check_width, write_width, poke, peek}
use gen_blob.Debug.Words.{limit, read_width-write_width}

-- With an address and a value that are numbers, and a type that fits the address: poke writes, and
-- peek of the same address and type then shows the value, cut to the width.
pub peek-poke :
    (name name' address value type : List ℕ) (a v c : ℕ) (w : Width) (m : Memory)
    → number (name ∷ address ∷ value ∷ type ∷ []) 1 ≡ ok a
    → number (name ∷ address ∷ value ∷ type ∷ []) 2 ≡ ok v
    → v < 2 ^ 32
    → first_char (name ∷ address ∷ value ∷ type ∷ []) 3 ≡ ok c
    → check_width c a ≡ ok w
    → (m' : Memory) × (poke (name ∷ address ∷ value ∷ type ∷ []) m ≡ ok m')
      × (peek (name' ∷ address ∷ type ∷ []) m' ≡ ok (v % limit w))
unfolding poke peek
peek-poke name name' address value type a v c w m is_address is_value small is_type fits = (
  write_width w m a v,
  rw (is_address, is_value, is_type, fits) refl,
  rw (same_number is_address, same_char is_type, fits, read_width-write_width w m a v small) refl,
)
  where
    same_number :
        number (name ∷ address ∷ value ∷ type ∷ []) 1 ≡ ok a
        → number (name' ∷ address ∷ type ∷ []) 1 ≡ ok a
    same_number h = unfold number in h

    same_char :
        first_char (name ∷ address ∷ value ∷ type ∷ []) 3 ≡ ok c
        → first_char (name' ∷ address ∷ type ∷ []) 2 ≡ ok c
    same_char h = unfold first_char in h
