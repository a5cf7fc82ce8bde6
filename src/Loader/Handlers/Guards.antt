-- ===== src/Loader/Handlers/Guards.antt =====
-- What the commands ADDR, JUMP and FLASH have checked before they act.
use gen_blob.Base.{
  ℕ, ◌+◌, ◌%◌, ◌^◌, ◌≤◌, ◌<◌, true, false, List, [], ◌∷◌, ◌++◌, Option, some, ◌≡◌, ◌⊎◌, inl, inr,
  sym, ap, ◌∙◌, arith, ◌==◌, if◌then◌else◌, u8, drop, >>=-eq-some, Bool-cases, ==_iff, replicate,
}
use gen_blob.Text.{copy_str}
use gen_blob.Hex.{hexasc_to_u32}
use gen_blob.Loader.Device.{Device, FlashPort, usb_stop, jump_to_ram}
use gen_blob.Loader.Err
use gen_blob.Loader.Handlers.{
  error, ack, set_address, parser_valid_address, handle_command_addr, handle_command_jump,
  flash_size_bad, flash_address_bad, unlock_flash, handle_command_flash,
}
use gen_blob.Loader.Send.{parse_err_response, parse_ack_response}
use gen_blob.Usb.Tx.{Tx, ep1_bus_reset}
use gen_blob.Loader.Memory.{sum_data}

-- The data field of ADDR and JUMP: an address, and the checksum of its eight digits.
abbrev pub AddressField : List ℕ → ℕ → Type 0
AddressField field addr =
    (csum : ℕ) × (rx_csum : ℕ) × (sum_data 0 field 8 ≡ some csum)
    × (hexasc_to_u32 field 8 ≡ some addr)
    × (hexasc_to_u32 (drop 8 field) 2 ≡ some rx_csum)
    × (u8 rx_csum ≡ csum)

-- The data field of FLASH: three numbers, and the checksum of their digits.
abbrev pub FlashField : List ℕ → ℕ → ℕ → ℕ → Type 0
FlashField field source dest size =
    (csum : ℕ) × (rx_csum : ℕ) × (sum_data 0 field 24 ≡ some csum)
    × (hexasc_to_u32 field 8 ≡ some source)
    × (hexasc_to_u32 (drop 8 field) 8 ≡ some dest)
    × (hexasc_to_u32 (drop 16 field) 8 ≡ some size)
    × (hexasc_to_u32 (drop 24 field) 2 ≡ some rx_csum)
    × (u8 rx_csum ≡ csum)

-- What FLASH asks of them; the sums are taken modulo 2 ^ 32.
abbrev pub Flashable : ℕ → ℕ → ℕ → Type 0
Flashable source dest size =
    (size ≤ 0x800000)
    × (size % 0x20000 ≡ 0)
    × (dest % 0x20000 ≡ 0)
    × ((dest + size) % 2 ^ 32 ≤ 0x4000000)
    × (source % 8 ≡ 0)
    × (0xa0000000 ≤ source)
    × ((source + size) % 2 ^ 32 ≤ 0xa2000000)

flash_bad-Flashable :
    (source dest size : ℕ)
    → flash_size_bad size ≡ false
    → flash_address_bad source dest size ≡ false
    → Flashable source dest size
unfolding flash_size_bad flash_address_bad
flash_bad-Flashable source dest size h g = ground arith

-- A source whose last byte lies behind the end of the address space is taken for one inside the
-- window, for the sum wraps around.
pub flash_address_bad_wraps :
    (source dest size : ℕ)
    → source % 8 ≡ 0
    → source < 2 ^ 32
    → 2 ^ 32 ≤ source + size
    → size ≤ 0x800000
    → dest % 0x20000 ≡ 0
    → dest + size ≤ 0x4000000
    → flash_address_bad source dest size ≡ false
unfolding flash_address_bad
flash_address_bad_wraps source dest size aligned small behind size_ok dest_ok fits = ground arith

module _ {Flash : Type 0} where
  -- What an error response leaves alone.
  Quiet : Device Flash → Device Flash → Type 0
  Quiet d d' =
      (d'.received_address ≡ d.received_address)
      × (d'.mem ≡ d.mem)
      × (d'.flash ≡ d.flash)
      × (d'.effects ≡ d.effects)

  with_tx-Quiet : (d d' : Device Flash) (t : Tx) → some (record d { tx = t }) ≡ some d' → Quiet d d'
  unfolding Quiet
  with_tx-Quiet d d' t h =
      let e : record d { tx = t } ≡ d' = cc in
      (
        sym (ap (λ x. x.received_address) e),
        sym (ap (λ x. x.mem) e),
        sym (ap (λ x. x.flash) e),
        sym (ap (λ x. x.effects) e),
      )

  error-Quiet :
      (code : ℕ) (d : Device Flash) {d' : Device Flash} → error code d ≡ some d' → Quiet d d'
  error-Quiet code d {d'} h =
      let (t, sent, same) = >>=-eq-some (parse_err_response code d.tx) _ h in
      with_tx-Quiet d d' t same

  set_address-received :
      (d d' : Device Flash) (addr : ℕ)
      → parser_valid_address addr ≡ true
      → set_address addr d ≡ some d'
      → (d'.received_address ≡ addr)
        × (0xa0000000 ≤ d'.received_address)
        × (d'.received_address ≤ 0xa1000000)
  unfolding set_address parser_valid_address
  set_address-received d d' addr valid h =
      let (response, copied, h1) = >>=-eq-some (copy_str (replicate 64 0) d.recv_data) _ h in
      let (t, sent, same) = >>=-eq-some (parse_ack_response d.recv_cmd (some response) d.tx) _ h1 in
      let e : record d { received_address = addr; tx = t } ≡ d' = cc in
      let at : d'.received_address ≡ addr = sym (ap (λ x. x.received_address) e) in
      let low : 0xa0000000 ≤ addr = ground arith in
      let high : addr ≤ 0xa1000000 = ground arith in (at, omega arith, omega arith)

  -- ADDR changes the load address only to one in the RAM window that came with its checksum.
  pub handle_command_addr-AddressField :
      (d d' : Device Flash)
      → handle_command_addr true d ≡ some d'
      → (d'.received_address ≡ d.received_address)
        ⊎ (AddressField d.recv_data d'.received_address
            × (0xa0000000 ≤ d'.received_address)
            × (d'.received_address ≤ 0xa1000000))
  unfolding handle_command_addr Quiet
  handle_command_addr-AddressField d d' h =
      let (csum, e1, h1) = >>=-eq-some (sum_data 0 d.recv_data 8) _ h in
      let (addr, e2, h2) = >>=-eq-some (hexasc_to_u32 d.recv_data 8) _ h1 in
      let (rx, e3, h3) = >>=-eq-some (hexasc_to_u32 (drop 8 d.recv_data) 2) _ h2 in
      elim (Bool-cases (u8 rx == csum)) [
        | inl ok ↦
            let h4 : (if parser_valid_address addr
                  then set_address addr d
                  else error Err.address_invalid d)
                ≡ some d' =
              rw ok at h3 in
            elim (Bool-cases (parser_valid_address addr)) [
              | inl valid ↦
                  let (at, low, high) = set_address-received d d' addr valid (rw valid at h4) in
                  let same : u8 rx ≡ csum = (==_iff (u8 rx) csum).0 ok in
                  inr ((csum, rx, e1, e2 ∙ ap some (sym at), e3, same), low, high)
              | inr bad ↦ inl (error-Quiet Err.address_invalid d (rw bad at h4)).0
            ]
        | inr bad ↦
            let failed : error Err.bad_checksum d ≡ some d' = rw bad at h3 in
            inl (error-Quiet Err.bad_checksum d failed).0
      ]

  -- JUMP stops the USB controller and jumps, after it has answered, and only to an address that
  -- came with its checksum; otherwise it does nothing but answer.
  pub handle_command_jump-AddressField :
      (d d' : Device Flash)
      → handle_command_jump true d ≡ some d'
      → (d'.effects ≡ d.effects)
        ⊎ ((addr : ℕ) × AddressField d.recv_data addr
            × (d'.effects ≡ d.effects ++ usb_stop ∷ jump_to_ram addr ∷ []))
  unfolding handle_command_jump Quiet
  handle_command_jump-AddressField d d' h =
      let (csum, e1, h1) = >>=-eq-some (sum_data 0 d.recv_data 8) _ h in
      let (addr, e2, h2) = >>=-eq-some (hexasc_to_u32 d.recv_data 8) _ h1 in
      let (rx, e3, h3) = >>=-eq-some (hexasc_to_u32 (drop 8 d.recv_data) 2) _ h2 in
      elim (Bool-cases (csum == u8 rx)) [
        | inl ok ↦
            let same : csum ≡ u8 rx = (==_iff csum (u8 rx)).0 ok in
            let (d1, answered, jumped) = >>=-eq-some (ack (some d.recv_data) d) _ (rw ok at h3) in
            let (t, sent, e) =
              >>=-eq-some (parse_ack_response d.recv_cmd (some d.recv_data) d.tx) _ answered in
            let before : d.effects ≡ d1.effects = sym (with_tx-Quiet d d1 t e).3 in
            let after : d1.effects ++ usb_stop ∷ jump_to_ram addr ∷ [] ≡ d'.effects =
              let e' : record d1 {
                tx = ep1_bus_reset d1.tx;
                effects = d1.effects ++ usb_stop ∷ jump_to_ram addr ∷ [];
              }
                  ≡ d' =
                cc in
              ap (λ x. x.effects) e' in
            inr (
              addr,
              (csum, rx, e1, e2, e3, sym same),
              sym after ∙ ap (λ es. es ++ usb_stop ∷ jump_to_ram addr ∷ []) (sym before),
            )
        | inr bad ↦
            let failed : error Err.bad_checksum d ≡ some d' = rw bad at h3 in
            inl (error-Quiet Err.bad_checksum d failed).3
      ]

module _ {Flash : Type 0} (port : FlashPort Flash) where
  -- FLASH leaves the flash as it is, unless source, destination and size came with their checksum
  -- and are aligned and in their windows.
  pub handle_command_flash-Flashable :
      (d d' : Device Flash)
      → handle_command_flash port true d ≡ some d'
      → (d'.flash ≡ d.flash)
        ⊎ ((source : ℕ) × (dest : ℕ) × (size : ℕ) × FlashField d.recv_data source dest size
            × Flashable source dest size)
  unfolding handle_command_flash Quiet
  handle_command_flash-Flashable d d' h =
      let (csum, e1, h1) = >>=-eq-some (sum_data 0 d.recv_data 24) _ h in
      let (source, e2, h2) = >>=-eq-some (hexasc_to_u32 d.recv_data 8) _ h1 in
      let (dest, e3, h3) = >>=-eq-some (hexasc_to_u32 (drop 8 d.recv_data) 8) _ h2 in
      let (size, e4, h4) = >>=-eq-some (hexasc_to_u32 (drop 16 d.recv_data) 8) _ h3 in
      let (rx, e5, h5) = >>=-eq-some (hexasc_to_u32 (drop 24 d.recv_data) 2) _ h4 in
      let checked : Option (Device Flash) =
        if flash_size_bad size
        then error Err.flash_size_invalid d
        else if flash_address_bad source dest size
        then error Err.address_invalid d
        else unlock_flash port source dest size d in
      elim (Bool-cases (u8 rx == csum)) [
        | inl ok ↦
            let h6 : checked ≡ some d' = rw ok at h5 in
            elim (Bool-cases (flash_size_bad size)) [
              | inl bad ↦ inl (error-Quiet Err.flash_size_invalid d (rw bad at h6)).2
              | inr good ↦ elim (Bool-cases (flash_address_bad source dest size)) [
                | inl bad ↦ inl (error-Quiet Err.address_invalid d (rw (good, bad) at h6)).2
                | inr fits ↦ inr (
                  source,
                  dest,
                  size,
                  (csum, rx, e1, e2, e3, e4, e5, (==_iff (u8 rx) csum).0 ok),
                  flash_bad-Flashable source dest size good fits,
                )
              ]
            ]
        | inr bad ↦
            let failed : error Err.bad_checksum d ≡ some d' = rw bad at h5 in
            inl (error-Quiet Err.bad_checksum d failed).2
      ]
