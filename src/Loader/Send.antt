-- ===== src/Loader/Send.antt =====
-- The answers of the loader: parse_send_packet, parse_err_response and parse_ack_response of
-- src/blob/bl_parser.c.
pub mod Frame
use gen_blob.Base.{
  ℕ, zero, suc, ◌+◌, ◌<◌, Bool, true, false, not, ◌&&◌, List, [], ◌∷◌, ◌++◌, Option, none, some,
  ltb, leb, ◌==◌, if◌then◌else◌, length, ◌>>=◌,
}
use gen_blob.Text.{strlen}
use gen_blob.Usb.Tx.{Tx, BufId, get_buf, set_buf, ezx_usb_xmit}
use gen_blob.Loader.Device.{Device, stx, etx, rs, bufsz, max_response_size, max_ack_response_size}

-- The bytes that the two copying loops put at place `i` and behind it.
put_command : List ℕ → ℕ → Option (List ℕ)
put_command [] i = none
put_command (c ∷ cs) i =
    if not (c == 0) && ltb i max_response_size
    then (do bs ← put_command cs (i + 1); some (c ∷ bs))
    else some []

put_data : List ℕ → ℕ → ℕ → Option (List ℕ)
put_data ds zero i = some []
put_data [] (suc count) i = if ltb i max_response_size then none else some []
put_data (d ∷ ds) (suc count) i =
    if ltb i max_response_size then (do bs ← put_data ds count (i + 1); some (d ∷ bs)) else some []

-- The packet without the NUL behind it. The NUL must still lie in the buffer.
packet : List ℕ → List ℕ → ℕ → Option (List ℕ)
unfolding put_command put_data
packet command_ptr data_ptr data_size = do
  cs ← put_command command_ptr 1
  ds ←
      (if data_size == 0
        then some []
        else (do bs ← put_data data_ptr data_size (length cs + 2); some (rs ∷ bs)))
  let out = stx ∷ (cs ++ (ds ++ etx ∷ []))
  if ltb (length out) bufsz then some out else none

send_from : Option BufId → List ℕ → List ℕ → ℕ → Tx → Option (Tx × Bool)
unfolding packet
send_from none command_ptr data_ptr data_size t = some (t, false)
send_from (some b) command_ptr data_ptr data_size t = do
  out ← packet command_ptr data_ptr data_size
  some (ezx_usb_xmit b (set_buf b (record { buf = out; len = length out }) t))

-- With no free buffer the packet is not even formed.
unfoldable pub parse_send_packet : List ℕ → List ℕ → ℕ → Tx → Option (Tx × Bool)
unfolding send_from
parse_send_packet command_ptr data_ptr data_size t =
    send_from (get_buf t) command_ptr data_ptr data_size t

abbrev err_str : List ℕ
err_str = b'E' ∷ b'R' ∷ b'R' ∷ 0 ∷ []

abbrev ack_str : List ℕ
ack_str = b'A' ∷ b'C' ∷ b'K' ∷ 0 ∷ []

unfoldable pub parse_err_response : ℕ → Tx → Option Tx
unfolding parse_send_packet
parse_err_response error_code t = do
  (t', _) ← parse_send_packet err_str (error_code ∷ 0 ∷ []) 1 t
  some t'

-- `while ((*p != NUL) && (pResp != end_ptr))`, with `pResp` at place `i` of resp_data.
put_until_end : List ℕ → ℕ → Option (List ℕ)
put_until_end [] i = none
put_until_end (c ∷ cs) i =
    if not (c == 0) && not (i == 31)
    then (do bs ← put_until_end cs (i + 1); some (c ∷ bs))
    else some []

-- What resp_data holds before the NUL. `data_ptr` is `none` for NULL.
ack_data : List ℕ → Option (List ℕ) → Option (List ℕ)
unfolding put_until_end
ack_data recv_cmd none = put_until_end recv_cmd 0
ack_data recv_cmd (some data_ptr) = do
  cs ← put_until_end recv_cmd 0
  ds ← put_until_end data_ptr (length cs + 1)
  some (cs ++ b',' ∷ ds)

send_ack : List ℕ → Tx → Option Tx
unfolding parse_send_packet strlen
send_ack resp_data t = do
  n ← strlen resp_data
  (t', _) ← parse_send_packet ack_str resp_data n t
  some t'

unfoldable pub parse_ack_response : List ℕ → Option (List ℕ) → Tx → Option Tx
unfolding ack_data send_ack
parse_ack_response recv_cmd data_ptr t = do
  resp ← ack_data recv_cmd data_ptr
  if ltb (length resp) max_ack_response_size then send_ack (resp ++ 0 ∷ []) t else none
