-- ===== src/Log.antt =====
-- peli/log: the console on the screen.
pub mod VideoConsole
