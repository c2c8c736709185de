-- ===== src/Ymodem.antt =====
-- The YMODEM parts of src/lmodem_rx.c and src/lmodem_tx.c, and the functions of the C library that
-- only they call.
pub mod Text
pub mod Header
pub mod Receive
pub mod Arrival
pub mod Emit
pub mod Number
pub mod Fields
pub mod Decode
pub mod RoundTrip
pub mod Silence
pub mod Overrun
pub mod Block0
pub mod Sent
pub mod Link
pub mod Announced
pub mod NextFile
pub mod Session
pub mod Whole
pub mod Delivered
mod Tests
mod LinkTests
mod WholeTests
