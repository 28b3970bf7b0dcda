-- ===== src/Nand.antt =====
-- peli/nand: readers of the system's files.
pub mod SysConf
pub mod Ipl
