-- ===== src/Control.antt =====
-- src/control.c: the commands that come over the control socket, and the replies.
pub mod Reply
pub mod Print
pub mod Commands
pub mod Aux
pub mod Report
pub mod Call
pub mod Known
pub mod Closed
pub mod Words
pub mod Sent
pub mod Stored
pub mod Receive
pub mod Standing
pub mod Lines
pub mod Pieces
mod Tests
