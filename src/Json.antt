-- ===== src/Json.antt =====
-- The JSON writer of lib/json/json.c.
pub mod Sink
pub mod Writer
pub mod Calls
pub mod Put
pub mod Escape
pub mod Text
pub mod Quote
pub mod Document
pub mod Level
pub mod Tree
pub mod Entry
pub mod Refine
pub mod Script
pub mod Safe
pub mod Bounds
pub mod Memory
pub mod Honest
pub mod Failure
pub mod Answers
mod Tests
