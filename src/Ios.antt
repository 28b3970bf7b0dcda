-- ===== src/Ios.antt =====
-- peli/ios: talking to the IOS processor.
pub mod Block
pub mod Ipc
pub mod Request
pub mod Resource
pub mod Interface
pub mod Sdio
