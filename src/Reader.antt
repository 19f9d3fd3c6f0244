-- ===== src/Reader.antt =====
-- The reader of lib/io/pipe.c over the buffers that the kernel filled.
pub mod State
pub mod Fill
pub mod Consume
pub mod Copy
pub mod Tally
mod Kept
mod Taken
pub mod Live
mod Gathered
mod Consumed
pub mod Keeping
mod Moved
pub mod Keeps
pub mod Waiting
pub mod Answered
pub mod Steps
pub mod Stream
mod Room
pub mod Ends
pub mod Owned
mod Tests
