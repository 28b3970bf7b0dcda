-- ===== src/Rt.antt =====
-- peli/rt: the runtime.
pub mod MessageQueue
pub mod Arena
pub mod Exceptions
pub mod Thread
pub mod Mutex
pub mod Gthread
pub mod Once
