-- ===== src/Loader/Receive/Stages.antt =====
-- What one transfer does in each stage of a message whose command is not BIN.
use gen_blob.Base.{
  ℕ, suc, ◌+◌, ◌^◌, ◌≤◌, ◌<◌, true, false, ◌||◌, List, [], ◌∷◌, ◌++◌, some, ◌≡◌, refl, sym, ap, ap₂,
  ◌∙◌, arith, ◌==◌, length, length-append, store, append-nil, u16, ne→==, >>=-eq-some,
}
use gen_blob.Loader.Device.{Device, FlashPort, stx, etx, rs}
use gen_blob.Loader.Receive.{
  Receiver, reset_global, store_all, separator, after_command, copy_command, command_field,
  find_stx, parse_data,
}
use gen_blob.Loader.Receive.Buffers.{Lacks, overlay, store_all-overlay, store-overlay_next}
use native.Mathlib.Nat.{add-zero}

-- Behind STX, with `n` bytes of the command in recvCmd.
abbrev pub in_command : ℕ → Receiver
in_command n = record reset_global { cmd_offset = n; start_flag = true }

-- Behind RS, with `n` bytes in recvData; `k` is what cmd_offset was left at.
abbrev pub in_data : ℕ → ℕ → Receiver
in_data n k = record {
  data_offset = n;
  cmd_offset = k;
  start_flag = true;
  cmd_flag = true;
  separator_clear = true;
  bin_cmd_flag = false;
  bin_bytes_to_read = 0;
}

module _ {Flash : Type 0} (port : FlashPort Flash) where
  -- Bytes between messages are dropped.
  find_stx-Lacks :
      (junk rest : List ℕ) (r : Receiver) (d : Device Flash)
      → Lacks stx junk
      → find_stx port (junk ++ rest) (r, d) ≡ find_stx port rest (r, d)
  unfolding find_stx
  find_stx-Lacks [] rest r d h = refl
  find_stx-Lacks (j ∷ junk) rest r d h = rw (ne→== j stx h.0) (find_stx-Lacks junk rest r d h.1)

  parse_data-idle :
      (bytes : List ℕ) (d : Device Flash)
      → parse_data port bytes (reset_global, d) ≡ find_stx port bytes (reset_global, d)
  unfolding parse_data
  parse_data-idle [] d = refl
  parse_data-idle (b ∷ bytes) d = refl

  pub parse_data-junk :
      (junk : List ℕ) (d : Device Flash)
      → Lacks stx junk
      → parse_data port junk (reset_global, d) ≡ some (reset_global, d)
  parse_data-junk junk d h =
      parse_data-idle junk d
      ∙ ap (λ b. find_stx port b (reset_global, d)) (sym (append-nil junk))
      ∙ find_stx-Lacks junk [] reset_global d h
      ∙ unfold find_stx in refl

  pub parse_data-stx :
      (junk rest : List ℕ) (d : Device Flash)
      → Lacks stx junk
      → parse_data port (junk ++ stx ∷ rest) (reset_global, d)
        ≡ command_field port rest (in_command 0, d)
  parse_data-stx junk rest d h =
      parse_data-idle (junk ++ stx ∷ rest) d
      ∙ find_stx-Lacks junk (stx ∷ rest) reset_global d h
      ∙ unfold find_stx in refl

  copy_command-step :
      (b i : ℕ) (rest : List ℕ) (r : Receiver) (d : Device Flash) {arr : List ℕ}
      → (b == etx || b == rs) ≡ false
      → store d.recv_cmd (r.cmd_offset + i) b ≡ some arr
      → copy_command port (b ∷ rest) i (r, d)
        ≡ copy_command port rest (i + 1) (r, record d { recv_cmd = arr })
  unfolding copy_command
  copy_command-step b i rest r d goes_on stored = rw (goes_on, stored)

  copy_command-stop :
      (c i : ℕ) (rest : List ℕ) (r : Receiver) (d : Device Flash) {arr : List ℕ}
      → (c == etx || c == rs) ≡ true
      → store d.recv_cmd (r.cmd_offset + i) 0 ≡ some arr
      → copy_command port (c ∷ rest) i (r, d)
        ≡ after_command port (c ∷ rest) (record r { cmd_flag = true }, record d { recv_cmd = arr })
  unfolding copy_command
  copy_command-stop c i rest r d stops stored = rw (stops, stored)

  -- The copying loop over bytes that do not end the command.
  copy_command-append :
      (bytes rest : List ℕ) (i : ℕ) (r : Receiver) (d : Device Flash) {arr : List ℕ}
      → Lacks etx bytes
      → Lacks rs bytes
      → store_all d.recv_cmd (r.cmd_offset + i) bytes ≡ some arr
      → copy_command port (bytes ++ rest) i (r, d)
        ≡ copy_command port rest (i + length bytes) (r, record d { recv_cmd = arr })
  unfolding store_all
  copy_command-append [] rest i r d {arr} no_etx no_rs e =
      let same : d.recv_cmd ≡ arr = cc in
      rw add-zero (ap (λ a. copy_command port rest i (r, record d { recv_cmd = a })) same)
  copy_command-append (b ∷ bytes) rest i r d {arr} no_etx no_rs e =
      let goes_on : (b == etx || b == rs) ≡ false = ground arith in
      let (arr', stored, later) =
        >>=-eq-some (store d.recv_cmd (r.cmd_offset + i) b)
          (λ a. store_all a (r.cmd_offset + i + 1) bytes) e in
      let at : r.cmd_offset + i + 1 ≡ r.cmd_offset + (i + 1) = omega arith in
      let count : i + 1 + length bytes ≡ i + suc (length bytes) = omega arith in
      copy_command-step b i (bytes ++ rest) r d goes_on stored
      ∙ copy_command-append bytes rest (i + 1) r (record d { recv_cmd = arr' }) no_etx.1 no_rs.1
          (ap (λ k. store_all arr' k bytes) (sym at) ∙ later)
      ∙ ap (λ k. copy_command port rest k (r, record d { recv_cmd = arr })) count

  command_field-copies :
      (bytes : List ℕ) (c : ℕ) (rest : List ℕ) (n : ℕ) (d : Device Flash)
      → command_field port (bytes ++ c ∷ rest) (in_command n, d)
        ≡ copy_command port (bytes ++ c ∷ rest) 0 (in_command n, d)
  unfolding command_field
  command_field-copies [] c rest n d = refl
  command_field-copies (b ∷ bytes) c rest n d = refl

  module _ (c0 : List ℕ) where
    -- The command goes on after this transfer.
    pub command_field-more :
        (got bytes : List ℕ) (d : Device Flash)
        → d.recv_cmd ≡ overlay got c0
        → Lacks etx bytes
        → Lacks rs bytes
        → length got + length bytes ≤ length c0
        → length c0 < 2 ^ 16
        → command_field port bytes (in_command (length got), d)
          ≡ some (
            in_command (length (got ++ bytes)),
            record d { recv_cmd = overlay (got ++ bytes) c0 },
          )
    unfolding command_field
    command_field-more got [] d e no_etx no_rs room small =
        ap (λ a. some (in_command (length got), record d { recv_cmd = a })) e
        ∙ ap (λ xs. some (in_command (length xs), record d { recv_cmd = overlay xs c0 }))
            (sym (append-nil got))
    command_field-more got (b ∷ bytes) d e no_etx no_rs room small =
        let at : length got ≡ length got + 0 = omega arith in
        let stored : store_all d.recv_cmd (length got + 0) (b ∷ bytes)
            ≡ some (overlay (got ++ b ∷ bytes) c0) =
          ap₂ (λ a k. store_all a k (b ∷ bytes)) e (sym at)
          ∙ store_all-overlay got c0 (b ∷ bytes) room in
        let count : u16 (length got + (0 + suc (length bytes))) ≡ length (got ++ b ∷ bytes) =
          omega (arith, length-append got (b ∷ bytes)) in
        ap (λ xs. copy_command port xs 0 (in_command (length got), d))
          (sym (append-nil (b ∷ bytes)))
        ∙ copy_command-append (b ∷ bytes) [] 0 (in_command (length got)) d no_etx no_rs stored
        ∙ ap (λ k. some (in_command k, record d { recv_cmd = overlay (got ++ b ∷ bytes) c0 })) count

    -- The command ends in this transfer.
    pub command_field-end :
        (got bytes rest : List ℕ) (c : ℕ) (d : Device Flash)
        → (c == etx || c == rs) ≡ true
        → d.recv_cmd ≡ overlay got c0
        → Lacks etx bytes
        → Lacks rs bytes
        → length got + length bytes < length c0
        → command_field port (bytes ++ c ∷ rest) (in_command (length got), d)
          ≡ separator port (c ∷ rest) (
            record (in_command (length got)) { cmd_flag = true },
            record d { recv_cmd = overlay ((got ++ bytes) ++ 0 ∷ []) c0 },
          )
    command_field-end got bytes rest c d ends e no_etx no_rs room =
        let at : length got ≡ length got + 0 = omega arith in
        let stored : store_all d.recv_cmd (length got + 0) bytes
            ≡ some (overlay (got ++ bytes) c0) =
          ap₂ (λ a k. store_all a k bytes) e (sym at)
          ∙ store_all-overlay got c0 bytes (omega arith) in
        let count : length (got ++ bytes) ≡ length got + (0 + length bytes) =
          omega (arith, length-append got bytes) in
        let ended : store (overlay (got ++ bytes) c0) (length got + (0 + length bytes)) 0
            ≡ some (overlay ((got ++ bytes) ++ 0 ∷ []) c0) =
          ap (λ k. store (overlay (got ++ bytes) c0) k 0) (sym count)
          ∙ store-overlay_next (got ++ bytes) c0 0 (omega (arith, length-append got bytes)) in
        command_field-copies bytes c rest (length got) d
        ∙ copy_command-append bytes (c ∷ rest) 0 (in_command (length got)) d no_etx no_rs stored
        ∙ copy_command-stop c (0 + length bytes) rest (in_command (length got))
            (record d { recv_cmd = overlay (got ++ bytes) c0 }) ends ended
        ∙ unfold after_command in refl
