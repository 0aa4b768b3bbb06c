-- ===== src/Runtime.antt =====
-- internal/runtime: the managers that agents and simulators call.
pub mod Queue
pub mod Session
pub mod Injection
pub mod Replay
pub mod Fallback
