-- ===== src/Drivers.antt =====
-- kernel/drivers, and the drivers inside kernel/kernel.c.
pub mod Ata
pub mod Disk
pub mod Floppy
pub mod Mouse
pub mod Pit
pub mod Ramdisk
