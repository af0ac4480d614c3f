-- ===== src/Blockio.antt =====
-- src/blockio.c and src/blockio.h: the macroblocks of the base device.
pub mod Info
pub mod Index
pub mod Layout
pub mod Stored
mod Tests
