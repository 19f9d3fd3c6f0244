-- ===== src/Engine.antt =====
-- The HTTP engine, lib/http/engine.c: the request head and how its body is framed.
pub mod Token
pub mod Lower
pub mod Pick
pub mod Request
pub mod Coding
pub mod Length
mod Coded
pub mod Framing
mod Tests
