-- ===== src/Conn.antt =====
-- A connection of lib/io/conn.c between the completions of its receives.
pub mod State
pub mod Coroutine
pub mod Receive
pub mod Refs
mod Ended
mod Completed
pub mod Counted
mod Tests
