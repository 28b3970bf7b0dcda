-- ===== src/Ppc.antt =====
-- peli/ppc: the processor's block address translation and its caches.
pub mod Bat
pub mod Cache
