-- ===== src/Runtime.antt =====
-- Run-time utilities, src/runtime_util.c.
pub mod Hex
pub mod Node
mod Tests
