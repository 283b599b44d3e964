-- ===== src/Fat.antt =====
-- The FAT12 code of kernel/kernel.c.
pub mod Volume
pub mod Table
pub mod Files
pub mod Editor
pub mod Older
