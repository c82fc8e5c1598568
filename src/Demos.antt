-- ===== src/Demos.antt =====
-- demos: programs for one part of the firmware each.
pub mod NvsSpiFlash
pub mod Esc
