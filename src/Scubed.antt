-- ===== src/Scubed.antt =====
-- src/scubed3.c: the log structured volume over the macroblocks of a device, with what it uses of
-- src/blockio.c. A mesoblock is a list of bytes. What the base device holds is the ciphertext of
-- each data mesoblock and the contents of each index block before its encoding.
pub mod State
pub mod Output
pub mod Request
pub mod Address
pub mod Contents
pub mod Splice
pub mod Obsolete
pub mod Reference
pub mod Read
pub mod Write
pub mod Current
pub mod ReadWrite
pub mod Transfer
pub mod Flat
pub mod Switch
pub mod WriteOut
pub mod Reselect
pub mod Copy
pub mod Round
pub mod Drain
pub mod Init
pub mod Replaying
pub mod Replayed
pub mod Enlarged
pub mod Tests
