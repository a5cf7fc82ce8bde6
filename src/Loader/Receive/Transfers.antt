-- ===== src/Loader/Receive/Transfers.antt =====
-- The stages of a message whose command is not BIN, over any cut into transfers.
use gen_blob.Base.{
  ℕ, ◌+◌, ◌^◌, ◌<◌, true, false, ◌||◌, List, [], ◌∷◌, ◌++◌, Option, none, some, ◌≡◌, inl, inr, refl,
  sym, ap, subst, ◌∙◌, arith, ◌==◌, length, length-append, append_assoc, ◌>>=◌,
}
use gen_blob.Loader.Device.{Device, FlashPort, stx, etx, rs}
use gen_blob.Loader.Receive.{
  Receiver, State, reset_global, bin_str, finish, first_data, separator, later_data, command_field,
  parse_data, receive,
}
use gen_blob.Loader.Receive.Buffers.{Lacks, Lacks-append, overlay, append_split, concat}
use gen_blob.Loader.Receive.DataStages.{
  first_data-more, first_data-end, later_data-more, later_data-end,
}
use gen_blob.Loader.Receive.Stages.{
  in_command, in_data, parse_data-junk, parse_data-stx, command_field-more, command_field-end,
}
use gen_blob.Text.{string_equal}

pub append-empty : (xs ys : List ℕ) → xs ++ ys ≡ [] → (xs ≡ []) × (ys ≡ [])
append-empty [] ys h = (refl, h)
append-empty (x ∷ xs) ys h = absurd (cc)

module _ {Flash : Type 0} (port : FlashPort Flash) where
  -- Nothing is left to receive.
  pub receive-empty :
      (bs : List (List ℕ)) (s : State port) → concat bs ≡ [] → receive port bs s ≡ some s
  unfolding receive parse_data
  receive-empty [] s h = refl
  receive-empty ([] ∷ bs) s h = receive-empty bs s h
  receive-empty ((x ∷ b) ∷ bs) s h = absurd (cc)

  pub then_empty :
      (bs : List (List ℕ)) (o : Option (State port))
      → concat bs ≡ []
      → (o >>= (λ s. receive port bs s)) ≡ o
  then_empty bs none h = refl
  then_empty bs (some s) h = receive-empty bs s h

  parse_data-in_command :
      (b : List ℕ) (n : ℕ) (d : Device Flash)
      → parse_data port b (in_command n, d) ≡ command_field port b (in_command n, d)
  unfolding parse_data command_field
  parse_data-in_command [] n d = refl
  parse_data-in_command (x ∷ b) n d = refl

  module _ (r0 : List ℕ) (small : length r0 < 2 ^ 16) where
    -- What is left of a message once its data have begun.
    pub receive-data :
        (transfers : List (List ℕ)) (k : ℕ) (got rest : List ℕ) (d : Device Flash)
        → d.recv_data ≡ overlay got r0
        → Lacks etx rest
        → length got + length rest < length r0
        → concat transfers ≡ rest ++ etx ∷ []
        → receive port transfers (in_data (length got) k, d)
          ≡ finish port true (record d { recv_data = overlay ((got ++ rest) ++ 0 ∷ []) r0 })
    unfolding receive parse_data command_field
    receive-data [] k got [] d e no_etx room h = absurd (cc)
    receive-data [] k got (x ∷ rest) d e no_etx room h = absurd (cc)
    receive-data ([] ∷ bs) k got rest d e no_etx room h =
        receive-data bs k got rest d e no_etx room h
    receive-data ((y ∷ ys) ∷ bs) k got rest d e no_etx room h =
        let b : List ℕ = y ∷ ys in
        elim (append_split b (concat bs) rest (etx ∷ []) h) [
          | inl (ws, here, later) ↦
              let no_etx' = Lacks-append etx b ws (subst (Lacks etx) here no_etx) in
              let size : length b + length ws ≡ length rest =
                sym (length-append b ws) ∙ ap length (sym here) in
              let step = later_data-more port r0 k got d e b no_etx'.0 (omega arith) small in
              let d' : Device Flash = record d { recv_data = overlay (got ++ b) r0 } in
              let same : (got ++ b) ++ ws ≡ got ++ rest =
                append_assoc got b ws ∙ ap (λ xs. got ++ xs) (sym here) in
              ap (λ o. o >>= (λ s. receive port bs s)) step
              ∙ receive-data bs k (got ++ b) ws d' refl no_etx'.1
                  (omega (arith, length-append got b)) later
              ∙ ap (λ xs. finish port true (record d { recv_data = overlay (xs ++ 0 ∷ []) r0 }))
                  same
          | inr (w, ws, here, later) ↦
              let rest_empty = append-empty ws (concat bs) (cc) in
              let cut : b ≡ rest ++ etx ∷ [] = cc in
              ap (λ o. o >>= (λ s. receive port bs s))
                (ap (λ xs. later_data port xs (in_data (length got) k, d)) cut
                  ∙ later_data-end port r0 k got d e rest no_etx room)
              ∙ then_empty bs _ rest_empty.1
        ]

    -- The same from the byte behind RS on.
    pub first-data :
        (b : List ℕ) (bs : List (List ℕ)) (n : ℕ) (x : List ℕ) (d : Device Flash)
        → string_equal bin_str d.recv_cmd ≡ some false
        → d.recv_data ≡ r0
        → Lacks etx x
        → length x < length r0
        → b ++ concat bs ≡ x ++ etx ∷ []
        → (first_data port b (record (in_command n) { cmd_flag = true }, d)
            >>= (λ s. receive port bs s))
          ≡ finish port true (record d { recv_data = overlay (x ++ 0 ∷ []) r0 })
    first-data b bs n x d not_bin e no_etx room h =
        elim (append_split b (concat bs) x (etx ∷ []) h) [
          | inl (ws, here, later) ↦
              let no_etx' = Lacks-append etx b ws (subst (Lacks etx) here no_etx) in
              let size : length b + length ws ≡ length x =
                sym (length-append b ws) ∙ ap length (sym here) in
              let d' : Device Flash = record d { recv_data = overlay b r0 } in
              ap (λ o. o >>= (λ s. receive port bs s))
                (first_data-more port r0 n d not_bin b e no_etx'.0 (omega arith) small)
              ∙ receive-data bs n b ws d' refl no_etx'.1 (omega arith) later
              ∙ ap (λ xs. finish port true (record d { recv_data = overlay (xs ++ 0 ∷ []) r0 }))
                  (sym here)
          | inr (w, ws, here, later) ↦
              let rest_empty = append-empty ws (concat bs) (cc) in
              let cut : b ≡ x ++ etx ∷ [] = cc in
              ap (λ o. o >>= (λ s. receive port bs s))
                (ap (λ xs. first_data port xs (record (in_command n) { cmd_flag = true }, d)) cut
                  ∙ first_data-end port r0 n d not_bin x e no_etx room)
              ∙ then_empty bs _ rest_empty.1
        ]

  module _ (c0 : List ℕ) (small : length c0 < 2 ^ 16) where
    -- What separator is given when the command has ended with `w`, and what is still to come.
    abbrev pub Separated : List (List ℕ) → Receiver → Device Flash → ℕ → List ℕ → List ℕ → Type 0
    Separated transfers r d w c tail =
        (n : ℕ) × (b : List ℕ) × (bs : List (List ℕ)) × (receive port transfers (r, d) ≡ (
          separator port (w ∷ b) (
            record (in_command n) { cmd_flag = true },
            record d { recv_cmd = overlay (c ++ 0 ∷ []) c0 },
          )
          >>= (λ s. receive port bs s)))
        × (b ++ concat bs ≡ tail)

    receive-command :
        (transfers : List (List ℕ)) (got rest : List ℕ) (w : ℕ) (tail : List ℕ) (d : Device Flash)
        → (w == etx || w == rs) ≡ true
        → d.recv_cmd ≡ overlay got c0
        → Lacks etx rest
        → Lacks rs rest
        → length got + length rest < length c0
        → concat transfers ≡ rest ++ w ∷ tail
        → Separated transfers (in_command (length got)) d w (got ++ rest) tail
    unfolding receive
    receive-command [] got [] w tail d ends e no_etx no_rs room h = absurd (cc)
    receive-command [] got (x ∷ rest) w tail d ends e no_etx no_rs room h = absurd (cc)
    receive-command (b ∷ bs) got rest w tail d ends e no_etx no_rs room h =
        elim (append_split b (concat bs) rest (w ∷ tail) h) [
          | inl (ws, here, later) ↦
              let no_etx' = Lacks-append etx b ws (subst (Lacks etx) here no_etx) in
              let no_rs' = Lacks-append rs b ws (subst (Lacks rs) here no_rs) in
              let size : length b + length ws ≡ length rest =
                sym (length-append b ws) ∙ ap length (sym here) in
              let step : parse_data port b (in_command (length got), d) ≡ _ =
                parse_data-in_command b (length got) d
                ∙ command_field-more port c0 got b d e no_etx'.0 no_rs'.0 (omega arith) small in
              let d' : Device Flash = record d { recv_cmd = overlay (got ++ b) c0 } in
              let same : (got ++ b) ++ ws ≡ got ++ rest =
                append_assoc got b ws ∙ ap (λ xs. got ++ xs) (sym here) in
              subst (λ xs. Separated (b ∷ bs) (in_command (length got)) d w xs tail) same
                (let (n, b', bs', runs, left) =
                    receive-command bs (got ++ b) ws w tail d' ends refl no_etx'.1 no_rs'.1
                      (omega (arith, length-append got b)) later in
                  (n, b', bs', ap (λ o. o >>= (λ s. receive port bs s)) step ∙ runs, left))
          | inr (w', ws, here, later) ↦
              let cut : b ≡ rest ++ w ∷ ws = cc in
              (
                length got,
                ws,
                bs,
                ap (λ o. o >>= (λ s. receive port bs s))
                    (parse_data-in_command b (length got) d
                      ∙ ap (λ xs. command_field port xs (in_command (length got), d)) cut
                      ∙ command_field-end port c0 got rest ws w d ends e no_etx no_rs room),
                cc,
              )
        ]

    -- The same, with bytes before STX.
    pub receive-junk :
        (transfers : List (List ℕ)) (junk c : List ℕ) (w : ℕ) (tail : List ℕ) (d : Device Flash)
        → (w == etx || w == rs) ≡ true
        → d.recv_cmd ≡ c0
        → Lacks stx junk
        → Lacks etx c
        → Lacks rs c
        → length c < length c0
        → concat transfers ≡ junk ++ stx ∷ (c ++ w ∷ tail)
        → Separated transfers reset_global d w c tail
    unfolding receive
    receive-junk [] [] c w tail d ends e no_stx no_etx no_rs room h = absurd (cc)
    receive-junk [] (x ∷ junk) c w tail d ends e no_stx no_etx no_rs room h = absurd (cc)
    receive-junk (b ∷ bs) junk c w tail d ends e no_stx no_etx no_rs room h =
        elim (append_split b (concat bs) junk (stx ∷ (c ++ w ∷ tail)) h) [
          | inl (ws, here, later) ↦
              let no_stx' = Lacks-append stx b ws (subst (Lacks stx) here no_stx) in
              let (n, b', bs', runs, left) =
                receive-junk bs ws c w tail d ends e no_stx'.1 no_etx no_rs room later in
              (
                n,
                b',
                bs',
                ap (λ o. o >>= (λ s. receive port bs s)) (parse_data-junk port b d no_stx'.0)
                    ∙ runs,
                left,
              )
          | inr (w', ws, here, later) ↦
              let cut : b ≡ junk ++ stx ∷ ws = cc in
              let (n, b', bs', runs, left) =
                receive-command (ws ∷ bs) [] c w tail d ends e no_etx no_rs (omega arith) (cc) in
              (
                n,
                b',
                bs',
                ap (λ o. o >>= (λ s. receive port bs s))
                      (ap (λ xs. parse_data port xs (reset_global, d)) cut
                        ∙ parse_data-stx port junk ws d no_stx
                        ∙ sym (parse_data-in_command ws 0 d))
                    ∙ runs,
                left,
              )
        ]
