-- ===== src/Ios/Sdio.antt =====
-- peli/ios/sdio: the SD card.
pub mod Card
