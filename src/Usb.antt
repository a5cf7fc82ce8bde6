-- ===== src/Usb.antt =====
-- The USB side of the boot loader: the bulk endpoint towards the host (src/blob/usb_ep1.c) and the
-- driver that queues the packets for it (src/blob/usb-mot1.c, with get_buf and mybuf_reset of
-- src/blob/bl_parser.c).
pub mod Ep1
pub mod Tx
pub mod Control
pub mod Ep0
pub mod Ep2
pub mod Rx
pub mod Descriptors
pub mod Driver
