-- ===== src/Loader.antt =====
-- The flash loader that speaks with a host over USB: src/blob/bl_parser.c and
-- src/blob/bl_cmds_handler.c.
pub mod Device
pub mod Send
pub mod Err
pub mod Memory
pub mod Handlers
pub mod Queries
pub mod Dispatch
pub mod Receive
