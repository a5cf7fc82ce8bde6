-- ===== src/Loader/Receive/Overflow.antt =====
-- A command that does not end is written past recvCmd.
use gen_blob.Base.{
  ℕ, zero, suc, ◌+◌, ◌≤◌, ◌<◌, ◌⊎◌, false, ◌||◌, List, [], ◌∷◌, none, ◌≡◌, refl, arith, ◌==◌,
  length, store, store_in_range, inl, inr,
}
use gen_blob.Loader.Device.{Device, FlashPort, stx, etx, rs}
use gen_blob.Loader.Receive.{
  Receiver, reset_global, copy_command, command_field, find_stx, parse_data,
}
use gen_blob.Loader.Receive.Buffers.{Lacks}
use gen_blob.Loader.Receive.Stages.{in_command}

store_behind : (xs : List ℕ) (i v : ℕ) → length xs ≤ i → store xs i v ≡ none
unfolding store
store_behind [] i v h = refl
store_behind (x ∷ xs) zero v h = absurd (omega arith)
store_behind (x ∷ xs) (suc i) v h = ground (arith, store_behind xs i v)

le-cases : (a b : ℕ) → a ≤ b → (a < b) ⊎ (a ≡ b)
le-cases a b h = ground arith

module _ {Flash : Type 0} (port : FlashPort Flash) where
  copy_command_overflow :
      (bytes : List ℕ) (i : ℕ) (r : Receiver) (d : Device Flash)
      → Lacks etx bytes
      → Lacks rs bytes
      → r.cmd_offset + i ≤ length d.recv_cmd
      → length d.recv_cmd < r.cmd_offset + i + length bytes
      → copy_command port bytes i (r, d) ≡ none
  unfolding copy_command
  copy_command_overflow [] i r d no_etx no_rs at over = absurd (omega arith)
  copy_command_overflow (b ∷ bytes) i r d no_etx no_rs at over =
      let goes_on : (b == etx || b == rs) ≡ false = ground arith in
      elim (le-cases (r.cmd_offset + i) (length d.recv_cmd) at) [
        | inl inside ↦
            let (arr, stored, size, _, _, _) =
              store_in_range d.recv_cmd (r.cmd_offset + i) b inside in
            let rest =
              copy_command_overflow bytes (i + 1) r (record d { recv_cmd = arr }) no_etx.1 no_rs.1
                (omega arith) (omega arith) in
            rw (goes_on, stored) rest
        | inr behind ↦
            let faults = store_behind d.recv_cmd (r.cmd_offset + i) b (omega arith) in
            rw (goes_on, faults) refl
      ]

  -- A transfer that opens a message, with more bytes of the command than recvCmd has and neither
  -- ETX nor RS among them, makes parse_data write behind recvCmd.
  pub parse_data_overflow :
      (bytes : List ℕ) (d : Device Flash)
      → Lacks etx bytes
      → Lacks rs bytes
      → length d.recv_cmd < length bytes
      → parse_data port (stx ∷ bytes) (reset_global, d) ≡ none
  unfolding parse_data find_stx command_field
  parse_data_overflow [] d no_etx no_rs over = absurd (omega arith)
  parse_data_overflow (b ∷ bytes) d no_etx no_rs over =
      copy_command_overflow (b ∷ bytes) 0 (in_command 0) d no_etx no_rs (omega arith) (omega arith)
