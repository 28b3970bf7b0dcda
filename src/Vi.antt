-- ===== src/Vi.antt =====
-- peli/vi: the video output.
pub mod Register
pub mod Timings
pub mod Mode
pub mod Video
