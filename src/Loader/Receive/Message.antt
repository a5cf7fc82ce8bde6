-- ===== src/Loader/Receive/Message.antt =====
-- A whole message whose command is not BIN, however it is cut into transfers.
use gen_blob.Base.{
  ℕ, ◌^◌, ◌<◌, true, false, List, [], ◌∷◌, ◌++◌, some, ◌≡◌, ◌≢◌, inl, inr, refl, sym, ap, ◌∙◌,
  arith, length, drop, Bool-cases,
}
use gen_blob.Loader.Device.{Device, FlashPort, stx, etx, rs}
use gen_blob.Loader.Receive.{reset_global, bin_str, finish, separator, receive}
use gen_blob.Loader.Receive.Buffers.{Lacks, overlay, concat}
use gen_blob.Loader.Receive.Stages.{}
use gen_blob.Text.{IsString, nul, char, string_equal}
use gen_blob.Text.Laws.{string_equal_iff}
use gen_blob.Loader.Receive.Transfers.{append-empty, then_empty, first-data, receive-junk}

pub Lacks-IsString : (c t : List ℕ) → Lacks 0 c → IsString ((c ++ 0 ∷ []) ++ t) c
Lacks-IsString [] t h = nul refl
Lacks-IsString (x ∷ c) t h = char h.0 (Lacks-IsString c t h.1)

abbrev pub bin : List ℕ
bin = b'B' ∷ b'I' ∷ b'N' ∷ []

not_bin :
    (c t : List ℕ) → Lacks 0 c → c ≢ bin → string_equal bin_str ((c ++ 0 ∷ []) ++ t) ≡ some false
not_bin c t no_nul other =
    let name : IsString bin_str bin =
      char (ground arith) (char (ground arith) (char (ground arith) (nul refl))) in
    let (b, e, agree) = string_equal_iff name (Lacks-IsString c t no_nul) in
    elim (Bool-cases b) [ inl same ↦ absurd (other (sym (agree.0 same))) | inr ne ↦ e ∙ ap some ne ]

module _ {Flash : Type 0} (port : FlashPort Flash) where
  -- A message with data: whatever stands before it without an STX, and however it is cut into
  -- transfers, the command and the data are handed to handle_command once, each ended with 0, and
  -- the parser is reset. The command is not BIN and lacks 0, ETX and RS, the data lack ETX, and
  -- both fit their arrays, which have fewer than 2 ^ 16 bytes.
  pub receive-message :
      (transfers : List (List ℕ)) (junk c x : List ℕ) (d : Device Flash)
      → Lacks stx junk
      → Lacks 0 c
      → Lacks etx c
      → Lacks rs c
      → c ≢ bin
      → Lacks etx x
      → length c < length d.recv_cmd
      → length d.recv_cmd < 2 ^ 16
      → length x < length d.recv_data
      → length d.recv_data < 2 ^ 16
      → concat transfers ≡ junk ++ stx ∷ (c ++ rs ∷ (x ++ etx ∷ []))
      → receive port transfers (reset_global, d)
        ≡ finish port true (record d {
          recv_cmd = overlay (c ++ 0 ∷ []) d.recv_cmd;
          recv_data = overlay (x ++ 0 ∷ []) d.recv_data;
        })
  receive-message transfers junk c x d no_stx no_nul no_etx no_rs other no_end room small space
        short h =
      let (n, b, bs, runs, left) =
        receive-junk port d.recv_cmd small transfers junk c rs (x ++ etx ∷ []) d refl refl no_stx
          no_etx no_rs room h in
      let d' : Device Flash = record d { recv_cmd = overlay (c ++ 0 ∷ []) d.recv_cmd } in
      runs
      ∙ unfold separator in
        first-data port d.recv_data short b bs n x d'
          (not_bin c (drop (length (c ++ 0 ∷ [])) d.recv_cmd) no_nul other) refl no_end space left

  -- A message without data, the command directly ended by ETX: whatever stands before it without an
  -- STX, and however it is cut into transfers, the command, which lacks ETX and RS and fits
  -- recvCmd, is handed once to handle_command without data, and the parser is reset.
  pub receive-bare :
      (transfers : List (List ℕ)) (junk c : List ℕ) (d : Device Flash)
      → Lacks stx junk
      → Lacks etx c
      → Lacks rs c
      → length c < length d.recv_cmd
      → length d.recv_cmd < 2 ^ 16
      → concat transfers ≡ junk ++ stx ∷ (c ++ etx ∷ [])
      → receive port transfers (reset_global, d)
        ≡ finish port false (record d { recv_cmd = overlay (c ++ 0 ∷ []) d.recv_cmd })
  receive-bare transfers junk c d no_stx no_etx no_rs room small h =
      let (n, b, bs, runs, left) =
        receive-junk port d.recv_cmd small transfers junk c etx [] d refl refl no_stx no_etx no_rs
          room h in
      let rest_empty = append-empty b (concat bs) left in
      runs ∙ unfold separator in then_empty port bs _ rest_empty.1
