-- ===== src/Rzsz.antt =====
-- The command-line tool src/tools/rzsz.c: its options, its callbacks for the library, and what it
-- does with them.
pub mod Options
pub mod Requested
pub mod Accepted
pub mod Port
pub mod Main
pub mod Ready
pub mod Total
mod Tests
