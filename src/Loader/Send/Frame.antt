-- ===== src/Loader/Send/Frame.antt =====
-- The packet that an answer is sent in.
use gen_blob.Base.{
  ℕ, zero, suc, ◌+◌, ◌≤◌, ◌<◌, List, [], ◌∷◌, ◌++◌, some, ◌≡◌, refl, arith, length, length-append,
  take, length-take, Option-cases, inl, inr,
}
use gen_blob.Text.{IsString, nul, char}
use gen_blob.Usb.Tx.{Tx, get_buf}
use gen_blob.Usb.Tx.Queue.{enqueue}
use gen_blob.Loader.Device.{stx, etx, rs}
use gen_blob.Loader.Send.{put_command, put_data, packet, parse_send_packet, send_from}

put_command-IsString :
    {s xs : List ℕ} (i : ℕ) → IsString s xs → i + length xs < 5000 → put_command s i ≡ some xs
unfolding put_command
put_command-IsString i (nul e) h = ground arith
put_command-IsString i (char ne p) h = ground (arith, put_command-IsString (i + 1) p)

put_data-take :
    (ds : List ℕ) (count i : ℕ)
    → count ≤ length ds
    → i + count < 5000
    → put_data ds count i ≡ some (take count ds)
unfolding put_data
put_data-take ds zero i h room = refl
put_data-take [] (suc count) i h room = absurd (omega arith)
put_data-take (d ∷ ds) (suc count) i h room = ground (arith, put_data-take ds count (i + 1))

-- STX, the keyword, RS with the data if there are any, ETX.
abbrev pub frame : List ℕ → List ℕ → List ℕ
frame keyword [] = stx ∷ (keyword ++ etx ∷ [])
frame keyword (d ∷ ds) = stx ∷ (keyword ++ (rs ∷ d ∷ ds ++ etx ∷ []))

packet-frame :
    {s xs : List ℕ} (ds : List ℕ) (size : ℕ)
    → IsString s xs
    → size ≤ length ds
    → length xs + size + 3 < 5000
    → packet s ds size ≡ some (frame xs (take size ds))
unfolding packet
packet-frame {xs} ds zero p h room =
    rw (put_command-IsString 1 p (omega arith), put_command)
      (ground (arith, length-append xs (etx ∷ [])))
packet-frame [] (suc n) p h room = absurd (omega arith)
packet-frame {xs} (d ∷ ds) (suc n) p h room =
    rw
      (
        put_command-IsString 1 p (omega arith),
        put_data-take (d ∷ ds) (suc n) (length xs + 2) h (omega arith),
      )
      (ground (
        arith,
        length-append xs (rs ∷ d ∷ (take n ds ++ etx ∷ [])),
        length-append (take n ds) (etx ∷ []),
        length-take n ds,
      ))

-- parse_send_packet forms the frame of the keyword and the data, if the frame fits the buffer
-- with its NUL, and hands it to the queue.
pub parse_send_packet-enqueue :
    {s xs : List ℕ} (ds : List ℕ) (size : ℕ) (t : Tx)
    → IsString s xs
    → size ≤ length ds
    → length xs + size + 3 < 5000
    → parse_send_packet s ds size t ≡ some (enqueue (frame xs (take size ds)) t)
unfolding parse_send_packet
parse_send_packet-enqueue ds size t p h room = elim (Option-cases (get_buf t)) [
  | inl full ↦ rw (full, send_from)
  | inr (b, free) ↦ rw (free, packet-frame ds size p h room, send_from)
]
