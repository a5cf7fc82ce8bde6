-- ===== src/Loader/Queries/Bounds.antt =====
-- The responses of RQVN and RQCS fit into their arrays.
use gen_blob.Base.{
  ℕ, zero, suc, ◌+◌, ◌-◌, ◌*◌, ◌≤◌, ◌<◌, Bool, true, not, ◌&&◌, List, [], ◌∷◌, ◌++◌, Option, none,
  some, ◌≡◌, refl, arith, ltb, leb, ◌==◌, if◌then◌else◌, length, length-append, take, replicate,
  inl, inr, Bool-cases, lt→ltb, length-take,
}
use gen_blob.Hex.{u8_to_hexasc, u16_to_hexasc}
use gen_blob.Loader.Device.{Device}
use gen_blob.Loader.Handlers.{send}
use gen_blob.Loader.Memory.{Memory, byte_at, word_at}
use gen_blob.Loader.Queries.{
  add_bin_ascii_response, get_running_boot_info, code_group_fields, version_response,
  handle_command_rqvn, Csum, collect_csums, csum_fields, handle_command_rqcs, send_string,
  util_calc_csum, cg0_of, undefined_address, flash_bootloader_barker_is_valid,
  main_code_barker_is_valid,
}

-- Two characters for each byte.
length-add_bin_ascii_response :
    (m : Memory) (source_ptr : Option ℕ) (n : ℕ)
    → length (add_bin_ascii_response m source_ptr n) ≡ 2 * n
unfolding add_bin_ascii_response u8_to_hexasc
length-add_bin_ascii_response m source_ptr zero = refl
length-add_bin_ascii_response m none (suc n) = omega (arith, length-add_bin_ascii_response m none n)
length-add_bin_ascii_response m (some a) (suc n) =
    omega (arith, length-add_bin_ascii_response m (some (a + 1)) n)

length-code_group_fields :
    (m : Memory) (groups code_group nr : ℕ)
    → length (code_group_fields m groups code_group nr) ≤ 17 * groups
unfolding code_group_fields
length-code_group_fields m zero code_group nr = omega arith
length-code_group_fields m (suc groups) code_group nr =
    let start = word_at m (cg0_of m + 28 + 8 * code_group) in
    let exists = not (start == undefined_address) in
    let nr' = if exists then nr - 1 else nr in
    let field = add_bin_ascii_response m (if exists then some (start + 8) else none) 8 in
    let size = length-add_bin_ascii_response m (if exists then some (start + 8) else none) 8 in
    let rest = length-code_group_fields m groups (code_group + 1) nr' in
    elim (Bool-cases (nr == 0)) [
      | inl done ↦ rw done (omega arith)
      | inr more ↦
          rw more
            (omega (arith, length-append field (code_group_fields m groups (code_group + 1) nr')))
    ]

-- Three fields of 16 characters, and the code groups'.
four_fields :
    (xs ys zs ws : List ℕ) (c : ℕ)
    → length xs ≡ 16
    → length ys ≡ 16
    → length zs ≡ 16
    → length ws ≤ 374
    → length (xs ++ (c ∷ ys) ++ (c ∷ zs) ++ ws) < 435
four_fields xs ys zs ws c a b d e = omega (
  arith,
  length-append ((xs ++ (c ∷ ys)) ++ (c ∷ zs)) ws,
  length-append (xs ++ (c ∷ ys)) (c ∷ zs),
  length-append xs (c ∷ ys),
)

length-version_response : (m : Memory) → length (version_response m) < 435
unfolding version_response get_running_boot_info
length-version_response m =
    let valid = flash_bootloader_barker_is_valid m in
    let main = valid && main_code_barker_is_valid m in
    let number = byte_at m (cg0_of m + 24) in
    let nr = if main then (if ltb 22 number then 22 else number) else 0 in
    four_fields (get_running_boot_info m)
      (add_bin_ascii_response m (if valid then some 8 else none) 8)
      (add_bin_ascii_response m (if main then some (cg0_of m + 16) else none) 8)
      (code_group_fields m 22 0 nr) b','
      (length-add_bin_ascii_response m (if valid then some 8 else none) 8)
      (length-add_bin_ascii_response m (if valid then some 8 else none) 8)
      (length-add_bin_ascii_response m (if main then some (cg0_of m + 16) else none) 8)
      (length-code_group_fields m 22 0 nr)

length-csum_fields : (i : ℕ) (cs : List Csum) → length (csum_fields i cs) ≤ 5 * length cs
unfolding csum_fields
length-csum_fields i [] = omega arith
length-csum_fields i (c ∷ []) = omega (arith, length-take 4 (u16_to_hexasc c.sum))
length-csum_fields i (c ∷ c' ∷ cs) =
    let rest = length-csum_fields (i + 1) (c' ∷ cs) in
    let size = length-take 4 (u16_to_hexasc c.sum) in
    let behind : List ℕ = b',' ∷ csum_fields (i + 1) (c' ∷ cs) in
    elim (Bool-cases (leb 1 i && not c.valid)) [
      | inl blank ↦ rw blank (omega (arith, length-append (replicate 4 0x20) behind))
      | inr shown ↦ rw shown (omega (arith, length-append (take 4 (u16_to_hexasc c.sum)) behind))
    ]

length-collect_csums :
    (m : Memory) (left i groups : ℕ) → length (collect_csums m left i groups) ≤ left
unfolding collect_csums
length-collect_csums m zero i groups = omega arith
length-collect_csums m (suc left) i groups =
    ground (arith, length-collect_csums m left (i + 1) (util_calc_csum m i groups true).groups)

module _ {Flash : Type 0} where
  -- Whatever the memory holds, RQCS stays inside its response array: it sends the response, with
  -- the length that strlen finds.
  pub handle_command_rqcs_fits :
      (has_data : Bool) (d : Device Flash)
      → (length (csum_fields 0 (collect_csums d.mem 22 0 0)) < 115)
        × (handle_command_rqcs has_data d
            ≡ send_string
                (b'R' ∷ b'S' ∷ b'C' ∷ b'S' ∷ 0 ∷ [])
                (csum_fields 0 (collect_csums d.mem 22 0 0) ++ 0 ∷ [])
                d)
  unfolding handle_command_rqcs
  handle_command_rqcs_fits has_data d =
      let cs = collect_csums d.mem 22 0 0 in
      let fits : length (csum_fields 0 cs) < 115 =
        omega (arith, length-csum_fields 0 cs, length-collect_csums d.mem 22 0 0) in
      (fits, rw (lt→ltb (length (csum_fields 0 cs)) 115 fits) refl)

  -- Whatever the memory holds, RQVN stays inside its response array and sends its answer.
  pub handle_command_rqvn_fits :
      (has_data : Bool) (d : Device Flash)
      → (length (version_response d.mem) < 435)
        × (handle_command_rqvn has_data d
            ≡ send
                (b'R' ∷ b'S' ∷ b'V' ∷ b'N' ∷ 0 ∷ [])
                (b'g' ∷ b'e' ∷ b'n' ∷ b'-' ∷ b'b' ∷ b'l' ∷ b'o' ∷ b'b' ∷ 0 ∷ [])
                8
                d)
  unfolding handle_command_rqvn
  handle_command_rqvn_fits has_data d =
      let fits = length-version_response d.mem in
      (fits, rw (lt→ltb (length (version_response d.mem)) 435 fits) refl)
