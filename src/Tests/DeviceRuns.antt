-- ===== src/Tests/DeviceRuns.antt =====
-- Runs of the USB device.
use gen_blob.Base.{
  ℕ, true, false, List, [], ◌∷◌, ◌++◌, Option, none, some, ◌≡◌, refl, arith, replicate, take, min,
  leb, if◌then◌else◌, ◌>>=◌,
}
use gen_blob.Usb.Ep2.{Fifo, bytes_of}
use gen_blob.Usb.Control.{
  Ctl, sm_state_to_device_state, ev_reset, ev_suspend, state_zombie, state_zombie_suspend,
  usb_not_attached, usb_suspended, sd_zero, pxa_usb_open, pxa_usb_get_string_descriptor,
  usbctl_next_state_on_event, pxa_set_configured_callback,
}
use gen_blob.Usb.Control.Life.{IsWellFormed, here, next, by_event, by_callback, open-IsWellFormed}
use gen_blob.Usb.Ep0.{
  Csr, Ep0, Desc, ep0_idle, queue_and_start_write, sh_setup_begin, config_length,
}
use gen_blob.Usb.Ep0.Stage.{IsSent}
use gen_blob.Usb.Ep0.Setup.{IsQuiet, IsDescribed, sh_setup_begin-IsQuiet}
use gen_blob.Usb.Ep0.Transfer.{queue_and_start_write-IsSent}
use gen_blob.Usb.Rx.{cleared, ep2_interrupts}
use gen_blob.Usb.Rx.Delivery.{ArePackets, waiting, length-cleared, ep2_interrupts-message}
use gen_blob.Usb.Rx.Lost.{ep2_interrupts_lost}
use gen_blob.Usb.Descriptors.{configuration}
use gen_blob.Usb.Driver.{Driver, bit, udc_int_hndlr, on_event, endpoints, ep0_turn, ep2_turn}
use gen_blob.Usb.Driver.Live.{IsLive, udc_int_hndlr-IsLive}
use gen_blob.Usb.Driver.Reset.{IsSound, IsReady, udc_int_hndlr-IsReady}
use gen_blob.Loader.Device.{etx}
use gen_blob.Loader.Dispatch.{handle_command}
use gen_blob.Loader.Receive.{reset_global}
use gen_blob.Loader.Receive.Buffers.{overlay}
use gen_blob.Tests.LoaderRuns.{port, empty, transfers, addr_cmd, addr_data}

-- Before usbctl_init.
abbrev fresh : Ctl
fresh = record {
  sm_state = state_zombie;
  state = usb_not_attached;
  client_name = none;
  configured_callback = none;
  string_desc_array = replicate 16 none;
  callbacks = 0;
}

abbrev opened : Ctl
opened = (pxa_usb_open 1 fresh).0

abbrev used : Ctl
used = (usbctl_next_state_on_event ev_reset (pxa_set_configured_callback (some 9) opened).0).0

open-IsWellFormed_example :
    IsWellFormed used × (p : Option (List ℕ)) × (pxa_usb_get_string_descriptor 20 used ≡ some p)
open-IsWellFormed_example =
    open-IsWellFormed 1 20 fresh refl
      (next (next here (by_callback (some 9) opened)) (by_event ev_reset _))

abbrev ready_csr : ℕ → Csr
ready_csr n = record { opc = true; sa = true; rne = true }

-- A request for 64 bytes of the device descriptor.
abbrev fifo_word : ℕ → ℕ
fifo_word n = if leb n 4 then 16778880 else 4194304

abbrev idle_ep0 : Ep0
idle_ep0 = record {
  ep0_state = ep0_idle;
  req_flag = false;
  wr_p = [];
  bytes_left = 0;
  address = 0;
  fifo = [];
  status = [];
  reads = 0;
}

queue_and_start_write-IsSent_example :
    (e' : Ep0) × (queue_and_start_write ready_csr fifo_word configuration 255 32 idle_ep0 ≡ some e')
    × IsSent (leb 255 32) (take (min 32 255) configuration) idle_ep0 e'
queue_and_start_write-IsSent_example =
    queue_and_start_write-IsSent ready_csr fifo_word configuration 255 32 idle_ep0 (omega arith)
      refl

abbrev shown : Desc
shown = record {
  dev = 18 ∷ 1 ∷ 16 ∷ 1 ∷ 0 ∷ 0 ∷ 0 ∷ 16 ∷ 184 ∷ 34 ∷ 239 ∷ 190 ∷ 1 ∷ 0 ∷ 1 ∷ 2 ∷ 0 ∷ 1 ∷ [];
  cdb = configuration;
}

abbrev linked : Ctl
linked = record fresh {
  sm_state = state_zombie_suspend;
  state = usb_suspended;
  client_name = some 1;
  string_desc_array = some sd_zero ∷ replicate 15 none;
}

idle-IsQuiet : IsQuiet idle_ep0
idle-IsQuiet = record { state = refl; flag = refl; flushed = refl }

shown-IsDescribed : IsDescribed shown linked
unfolding config_length
shown-IsDescribed = record {
  dev = (18, refl, omega arith);
  configs = (1, 32, refl, refl, omega arith);
  strings = ((4, refl, omega arith), tt);
  slots = refl;
}

sh_setup_begin-IsQuiet_example :
    (e' : Ep0) × (sh_setup_begin ready_csr fifo_word shown linked idle_ep0 ≡ some e') × IsQuiet e'
sh_setup_begin-IsQuiet_example =
    sh_setup_begin-IsQuiet ready_csr fifo_word shown linked idle_ep0 shown-IsDescribed idle-IsQuiet

abbrev fifo : ℕ → List ℕ → Fifo
fifo count words = record { pc = true; sp = true; count = count; words = words }

abbrev fifos : List Fifo
fifos =
    fifo 4 (1145111043 ∷ [])
    ∷ fifo 7 (1092506180 ∷ 3158576 ∷ [])
    ∷ fifo 7 (808464432 ∷ 209721 ∷ [])
    ∷ []

fifos-ArePackets : ArePackets transfers fifos
unfolding bytes_of
fifos-ArePackets = (
  record {
    complete = refl;
    counted = refl;
    some_bytes = omega arith;
    not_long = omega arith;
    rest = [];
    in_words = refl;
    padding = omega arith;
  },
  (
    record {
      complete = refl;
      counted = refl;
      some_bytes = omega arith;
      not_long = omega arith;
      rest = replicate 1 0;
      in_words = refl;
      padding = omega arith;
    },
    (
      record {
        complete = refl;
        counted = refl;
        some_bytes = omega arith;
        not_long = omega arith;
        rest = replicate 1 0;
        in_words = refl;
        padding = omega arith;
      },
      tt,
    ),
  ),
)

ep2_interrupts-message_example :
    ep2_interrupts port fifos (waiting 64 cleared (reset_global, empty)) ≡ (do
      d' ← handle_command port true (record empty {
        recv_cmd = overlay (addr_cmd ++ 0 ∷ []) empty.recv_cmd;
        recv_data = overlay (addr_data ++ 0 ∷ []) empty.recv_data;
      })
      some (waiting 64 cleared (reset_global, d')))
ep2_interrupts-message_example =
    ep2_interrupts-message port 64 cleared transfers fifos (etx ∷ []) addr_cmd addr_data empty
      length-cleared fifos-ArePackets (ground arith) (ground arith) (ground arith) (ground arith)
      (cc) (ground arith) (omega arith) (omega arith) (omega arith) (omega arith) refl

ep2_interrupts_lost_example :
    ep2_interrupts port
      (fifo 0 [] ∷ fifo 4 (7 ∷ []) ∷ [])
      (waiting 64 cleared (reset_global, empty))
    ≡ none
ep2_interrupts_lost_example =
    ep2_interrupts_lost port 64 7 cleared (fifo 0 []) (fifo 4 (7 ∷ [])) [] [] (reset_global, empty)
      refl refl refl refl refl

-- After the packet that is lost.
abbrev stopped : Driver ℕ
stopped = record {
  ctl = linked;
  desc = shown;
  ep0 = idle_ep0;
  rx = record (waiting 64 cleared (reset_global, empty)) {
    ep2 = record (waiting 64 cleared (reset_global, empty)).ep2 { ep2_len = 0 };
  };
}

stopped-IsSound : IsSound stopped
unfolding sm_state_to_device_state
stopped-IsSound = record {
  consistent = refl;
  strings = ((4, refl, omega arith), tt);
  slots = refl;
  quiet = idle-IsQuiet;
}

reset_bit : bit 27 134217728 ≡ true
unfolding bit
reset_bit = refl

udc_int_hndlr-IsReady_example :
    (d' : Driver ℕ) × (udc_int_hndlr port ready_csr fifo_word 0 134217728 (fifo 0 []) [] stopped
      ≡ some d')
    × IsReady stopped d'
udc_int_hndlr-IsReady_example =
    udc_int_hndlr-IsReady port ready_csr fifo_word 0 134217728 (fifo 0 []) [] stopped
      stopped-IsSound reset_bit

suspended :
    udc_int_hndlr port ready_csr fifo_word 0 268435456 (fifo 0 []) [] stopped
    ≡ some (on_event ev_suspend stopped).0
unfolding udc_int_hndlr endpoints ep0_turn ep2_turn ep2_interrupts bit
suspended = refl

udc_int_hndlr-IsLive_example : IsLive (on_event ev_suspend stopped).0
udc_int_hndlr-IsLive_example =
    udc_int_hndlr-IsLive port ready_csr fifo_word 0 268435456 (fifo 0 []) [] stopped
      (on_event ev_suspend stopped).0
      (record { sound = stopped-IsSound; described = shown-IsDescribed }) suspended
