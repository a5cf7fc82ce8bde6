-- ===== src/Loader/Receive/DataStages.antt =====
-- What one transfer does in the data of a message whose command is not BIN.
use gen_blob.Base.{
  ℕ, suc, ◌+◌, ◌%◌, ◌^◌, ◌≤◌, ◌<◌, true, false, List, [], ◌∷◌, ◌++◌, none, some, ◌≡◌, sym, ap, ap₂,
  ◌∙◌, arith, length, drop, length-append, store, append_assoc,
}
use gen_blob.Loader.Device.{Device, FlashPort, etx}
use gen_blob.Loader.Receive.{
  Receiver, reset_global, bin_str, store_all, scan_etx, finish, end_data, first_data, later_data,
}
use gen_blob.Loader.Receive.Buffers.{
  Lacks, overlay, store_all-overlay, store-overlay, scan_etx-none, scan_etx-some, drop-append,
}
use gen_blob.Loader.Receive.Stages.{in_command, in_data}
use gen_blob.Text.{string_equal}

module _ {Flash : Type 0} (port : FlashPort Flash) (r0 : List ℕ) where
  end_data-some :
      (k : ℕ) (r : Receiver) (d : Device Flash) {arr : List ℕ}
      → store d.recv_data k 0 ≡ some arr
      → end_data port (some k) (r, d) ≡ finish port true (record d { recv_data = arr })
  unfolding end_data
  end_data-some k r d stored = rw stored

  behind :
      (got bytes : List ℕ)
      → drop (length got) (overlay (got ++ bytes) r0) ≡ bytes ++ drop (length (got ++ bytes)) r0
  behind got bytes =
      ap (drop (length got)) (append_assoc got bytes (drop (length (got ++ bytes)) r0))
      ∙ drop-append got (bytes ++ drop (length (got ++ bytes)) r0)

  etx_cleared :
      (got bytes : List ℕ)
      → length got + length bytes < length r0
      → store (overlay (got ++ (bytes ++ etx ∷ [])) r0) (length got + length bytes) 0
        ≡ some (overlay ((got ++ bytes) ++ 0 ∷ []) r0)
  etx_cleared got bytes room =
      ap₂ (λ xs k. store (overlay xs r0) k 0) (sym (append_assoc got bytes (etx ∷ [])))
        (sym (length-append got bytes))
      ∙ store-overlay (got ++ bytes) r0 etx 0 (omega (arith, length-append got bytes))

  module _ (n : ℕ) (d : Device Flash) (not_bin : string_equal bin_str d.recv_cmd ≡ some false) where
    abbrev at_rs : Receiver
    at_rs = record (in_command n) { cmd_flag = true }

    pub first_data-more :
        (bytes : List ℕ)
        → d.recv_data ≡ r0
        → Lacks etx bytes
        → length bytes ≤ length r0
        → length r0 < 2 ^ 16
        → first_data port bytes (at_rs, d)
          ≡ some (in_data (length bytes) n, record d { recv_data = overlay bytes r0 })
    unfolding first_data end_data
    first_data-more bytes e no_etx room small =
        let stored : store_all d.recv_data 0 bytes ≡ some (overlay bytes r0) =
          ap (λ a. store_all a 0 bytes) e ∙ store_all-overlay [] r0 bytes (omega arith) in
        let count : (0 + length bytes) % 2 ^ 16 ≡ length bytes = omega arith in
        rw (stored, not_bin, scan_etx-none bytes (drop (length bytes) r0) no_etx)
          (ap (λ k. some (in_data k n, record d { recv_data = overlay bytes r0 })) count)

    pub first_data-end :
        (bytes : List ℕ)
        → d.recv_data ≡ r0
        → Lacks etx bytes
        → length bytes < length r0
        → first_data port (bytes ++ etx ∷ []) (at_rs, d)
          ≡ finish port true (record d { recv_data = overlay (bytes ++ 0 ∷ []) r0 })
    unfolding first_data
    first_data-end bytes e no_etx room =
        let all : length (bytes ++ etx ∷ []) ≡ suc (length bytes) =
          omega (arith, length-append bytes (etx ∷ [])) in
        let stored : store_all d.recv_data 0 (bytes ++ etx ∷ [])
            ≡ some (overlay (bytes ++ etx ∷ []) r0) =
          ap (λ a. store_all a 0 (bytes ++ etx ∷ [])) e
          ∙ store_all-overlay [] r0 (bytes ++ etx ∷ []) (omega (arith, all)) in
        let found : scan_etx (overlay (bytes ++ etx ∷ []) r0) (length (bytes ++ etx ∷ []))
            ≡ some (length bytes) =
          ap (λ a. scan_etx a (length (bytes ++ etx ∷ []))) (append_assoc bytes (etx ∷ []) _)
          ∙ scan_etx-some bytes _ (length (bytes ++ etx ∷ [])) no_etx (omega (arith, all)) in
        let cleared : store (overlay (bytes ++ etx ∷ []) r0) (length bytes) 0
            ≡ some (overlay (bytes ++ 0 ∷ []) r0) =
          store-overlay bytes r0 etx 0 room in
        rw (stored, not_bin, found) (end_data-some (length bytes) reset_global _ cleared)

  module _ (k : ℕ) (got : List ℕ) (d : Device Flash) (e : d.recv_data ≡ overlay got r0) where
    pub later_data-more :
        (bytes : List ℕ)
        → Lacks etx bytes
        → length got + length bytes ≤ length r0
        → length r0 < 2 ^ 16
        → later_data port bytes (in_data (length got) k, d)
          ≡ some (
            in_data (length (got ++ bytes)) k,
            record d { recv_data = overlay (got ++ bytes) r0 },
          )
    unfolding later_data end_data
    later_data-more bytes no_etx room small =
        let stored : store_all d.recv_data (length got) bytes ≡ some (overlay (got ++ bytes) r0) =
          ap (λ a. store_all a (length got) bytes) e ∙ store_all-overlay got r0 bytes room in
        let unread : scan_etx (drop (length got) (overlay (got ++ bytes) r0)) (length bytes)
            ≡ none =
          ap (λ a. scan_etx a (length bytes)) (behind got bytes)
          ∙ scan_etx-none bytes (drop (length (got ++ bytes)) r0) no_etx in
        let count : (length got + length bytes) % 2 ^ 16 ≡ length (got ++ bytes) =
          omega (arith, length-append got bytes) in
        rw (stored, unread)
          (ap (λ n. some (in_data n k, record d { recv_data = overlay (got ++ bytes) r0 })) count)

    pub later_data-end :
        (bytes : List ℕ)
        → Lacks etx bytes
        → length got + length bytes < length r0
        → later_data port (bytes ++ etx ∷ []) (in_data (length got) k, d)
          ≡ finish port true (record d { recv_data = overlay ((got ++ bytes) ++ 0 ∷ []) r0 })
    unfolding later_data
    later_data-end bytes no_etx room =
        let sent = bytes ++ etx ∷ [] in
        let all : length sent ≡ suc (length bytes) =
          omega (arith, length-append bytes (etx ∷ [])) in
        let stored : store_all d.recv_data (length got) sent ≡ some (overlay (got ++ sent) r0) =
          ap (λ a. store_all a (length got) sent) e
          ∙ store_all-overlay got r0 sent (omega (arith, all)) in
        let found : scan_etx (drop (length got) (overlay (got ++ sent) r0)) (length sent)
            ≡ some (length bytes) =
          ap (λ a. scan_etx a (length sent)) (behind got sent ∙ append_assoc bytes (etx ∷ []) _)
          ∙ scan_etx-some bytes _ (length sent) no_etx (omega (arith, all)) in
        rw (stored, found)
          (end_data-some (length got + length bytes) reset_global _ (etx_cleared got bytes room))
