-- ===== src/Usb/Rx/Delivery.antt =====
-- What endpoint 2 hands to the parser: the packets of the host, whole and in order.
use gen_blob.Base.{
  ℕ, zero, suc, ◌-◌, ◌≤◌, ◌<◌, ◌%◌, true, false, List, [], ◌∷◌, ◌++◌, Option, none, some, ◌≡◌, refl,
  ap, ◌∙◌, arith, ◌>>=◌, take, drop, length, length-append, append_assoc, replicate, min,
  Option-cases, inl, inr, ◌^◌, ◌≢◌, ◌==◌,
}
use gen_blob.Usb.Ep1.{ok}
use gen_blob.Usb.Ep2.{Ep2, Fifo, bytes_of, drain, ep2_done, ep2_recv, ep2_int_hndlr}
use gen_blob.Usb.Rx.{
  Rx, usb_rsize, cleared, rx_callback, run_rx_call, ep2_interrupt, ep2_interrupts,
}
use gen_blob.Loader.Device.{Device, FlashPort, bufsz, stx, etx, rs}
use gen_blob.Loader.Dispatch.{handle_command}
use gen_blob.Loader.Receive.Message.{bin, receive-message}
use gen_blob.Loader.Receive.{Receiver, reset_global, parse_data, receive}
use gen_blob.Loader.Receive.Buffers.{Lacks, concat, overlay, store_all-overlay}

-- The endpoint waits for a packet of up to 64 bytes, whatever stands in its array.
abbrev pub armed : ℕ → List ℕ → Ep2
armed pktsize buf = record {
  ep2_buf = buf;
  ep2_len = usb_rsize;
  ep2_remain = usb_rsize;
  ep2_callback = true;
  rx_pktsize = pktsize;
}

abbrev pub waiting : {Flash : Type 0} → ℕ → List ℕ → Receiver × Device Flash → Rx Flash
waiting pktsize buf parser = record { ep2 = armed pktsize buf; in_len = 0; parser = parser }

-- The array after packets: rx_callback clears it behind each.
abbrev pub after : List (List ℕ) → List ℕ → List ℕ
after [] buf = buf
after (_ ∷ _) buf = cleared

-- The registers show a packet with these bytes: 1 to 64, in as many words as they take, whose last
-- one may have up to three bytes more.
pub record IsPacket (bytes : List ℕ) (f : Fifo) : Type 0 where
  pub complete : f.pc ≡ true
  pub counted : f.count ≡ length bytes
  pub some_bytes : 0 < length bytes
  pub not_long : length bytes ≤ 64
  pub rest : List ℕ
  pub in_words : bytes_of f.words ≡ bytes ++ rest
  pub padding : length rest < 4

-- The packets that a list of interrupts shows, in order.
abbrev pub ArePackets : List (List ℕ) → List Fifo → Type 0
ArePackets [] [] = Unit
ArePackets (bytes ∷ packets) (f ∷ fs) = IsPacket bytes f × ArePackets packets fs
ArePackets _ _ = ⊥

length-replicate : (n x : ℕ) → length (replicate n x) ≡ n
length-replicate zero x = refl
length-replicate (suc n) x = ap suc (length-replicate n x)

pub length-cleared : length cleared ≡ bufsz
unfolding cleared
length-cleared = length-replicate bufsz 0

take-append : (xs ys : List ℕ) → take (length xs) (xs ++ ys) ≡ xs
take-append [] ys = refl
take-append (x ∷ xs) ys = ap (◌∷◌ x) (take-append xs ys)

drain-armed :
    (n : ℕ) (buf ws : List ℕ)
    → length buf ≡ bufsz
    → length (bytes_of ws) ≤ 67
    → drain ws (armed n buf) ≡ some (overlay (bytes_of ws) buf)
unfolding drain
drain-armed n buf [] l h = unfold bytes_of in refl
drain-armed n buf (w ∷ ws) l h = store_all-overlay [] buf (bytes_of (w ∷ ws)) (omega arith)

-- The endpoint once the packet is read.
abbrev filled : ℕ → List ℕ → Fifo → List ℕ → Ep2
filled n buf f bytes = record {
  ep2_buf = overlay (bytes_of f.words) buf;
  ep2_len = 0;
  ep2_remain = 64 - length bytes;
  ep2_callback = true;
  rx_pktsize = n;
}

handler_takes :
    (n : ℕ) (buf : List ℕ) (f : Fifo) (bytes : List ℕ)
    → length buf ≡ bufsz
    → IsPacket bytes f
    → ep2_int_hndlr f (armed n buf) ≡ some (filled n buf f bytes, some (ok, length bytes))
unfolding ep2_int_hndlr ep2_done
handler_takes n buf f bytes l p =
    let counted : min (f.count % 1024) 64 ≡ length bytes = omega (arith, p.counted, p.not_long) in
    let short : length (bytes_of f.words) ≤ 67 =
      omega (arith, ap length p.in_words, length-append bytes p.rest, p.not_long, p.padding) in
    let nonzero : length bytes == 0 ≡ false = ground (arith, p.some_bytes) in
    let size : 64 - (64 - length bytes) ≡ length bytes = omega (arith, p.not_long) in
    rw (p.complete, counted, drain-armed n buf f.words l short, nonzero, size) refl

holds_bytes :
    (buf : List ℕ) (f : Fifo) (bytes : List ℕ)
    → IsPacket bytes f
    → take (length bytes) (overlay (bytes_of f.words) buf) ≡ bytes
holds_bytes buf f bytes p =
    let behind = drop (length (bytes_of f.words)) buf in
    ap (λ b. take (length bytes) (b ++ behind)) p.in_words
    ∙ ap (take (length bytes)) (append_assoc bytes p.rest behind)
    ∙ take-append bytes (p.rest ++ behind)

after-cleared : (packets : List (List ℕ)) → after packets cleared ≡ cleared
after-cleared [] = refl
after-cleared (p ∷ ps) = refl

>>=-assoc {ℓ} :
    {A B C : Type ℓ} (o : Option A) (f : A → B) (g : B → C)
    → (do b ← (do a ← o; some (f a)); some (g b)) ≡ (do a ← o; some (g (f a)))
>>=-assoc none f g = refl
>>=-assoc (some a) f g = refl

module _ {Flash : Type 0} (port : FlashPort Flash) where
  ep2_interrupt-parse_data :
      (n : ℕ) (buf : List ℕ) (f : Fifo) (bytes : List ℕ) (s : Receiver × Device Flash)
      → length buf ≡ bufsz
      → IsPacket bytes f
      → ep2_interrupt port f (waiting n buf s)
        ≡ (do s' ← parse_data port bytes s; some (waiting n cleared s'))
  unfolding ep2_interrupt run_rx_call rx_callback ep2_recv
  ep2_interrupt-parse_data n buf f bytes s l p =
      rw (handler_takes n buf f bytes l p, holds_bytes buf f bytes p) refl

  -- From the armed endpoint, the interrupts for packets of 1 to 64 bytes make the parser work through
  -- the packets in their order, whatever stands in the rest of their last words, and leave the
  -- endpoint armed.
  pub ep2_interrupts-receive :
      (n : ℕ) (buf : List ℕ) (packets : List (List ℕ)) (fs : List Fifo)
      (s : Receiver × Device Flash)
      → length buf ≡ bufsz
      → ArePackets packets fs
      → ep2_interrupts port fs (waiting n buf s)
        ≡ (do s' ← receive port packets s; some (waiting n (after packets buf) s'))
  unfolding ep2_interrupts receive
  ep2_interrupts-receive n buf [] [] s l h = refl
  ep2_interrupts-receive n buf [] (f ∷ fs) s l h = absurd h
  ep2_interrupts-receive n buf (bytes ∷ packets) [] s l h = absurd h
  ep2_interrupts-receive n buf (bytes ∷ packets) (f ∷ fs) s l h =
      rw (ep2_interrupt-parse_data n buf f bytes s l h.0)
        (elim (Option-cases (parse_data port bytes s)) [
          | inl e ↦ rw e refl
          | inr (s', e) ↦ rw e (
              ep2_interrupts-receive n cleared packets fs s' length-cleared h.1
              ∙ ap (λ b. (do t ← receive port packets s'; some (waiting n b t)))
                  (after-cleared packets))
        ])

  -- A message with data, as receive-message has it, that comes in such packets: handle_command runs
  -- once, and both the parser and the endpoint then wait for the next message.
  pub ep2_interrupts-message :
      (n : ℕ) (buf : List ℕ) (packets : List (List ℕ)) (fs : List Fifo) (junk c x : List ℕ)
      (d : Device Flash)
      → length buf ≡ bufsz
      → ArePackets packets fs
      → Lacks stx junk
      → Lacks 0 c
      → Lacks etx c
      → Lacks rs c
      → c ≢ bin
      → Lacks etx x
      → length c < length d.recv_cmd
      → length d.recv_cmd < 2 ^ 16
      → length x < length d.recv_data
      → length d.recv_data < 2 ^ 16
      → concat packets ≡ junk ++ stx ∷ (c ++ rs ∷ (x ++ etx ∷ []))
      → ep2_interrupts port fs (waiting n buf (reset_global, d)) ≡ (do
        d' ← handle_command port true (record d {
          recv_cmd = overlay (c ++ 0 ∷ []) d.recv_cmd;
          recv_data = overlay (x ++ 0 ∷ []) d.recv_data;
        })
        some (waiting n (after packets buf) (reset_global, d')))
  ep2_interrupts-message n buf packets fs junk c x d l h no_stx no_nul no_etx no_rs other no_end
        room small space short same =
      let ran =
        receive-message port packets junk c x d no_stx no_nul no_etx no_rs other no_end room small
          space short same in
      rw (ep2_interrupts-receive n buf packets fs (reset_global, d) l h, ran)
        (>>=-assoc (handle_command port true _) (λ d'. (reset_global, d'))
          (waiting n (after packets buf)))
