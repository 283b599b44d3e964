-- ===== src/Arch.antt =====
-- kernel/arch/i386: the tables of the processor, the interrupts and the early terminal.
pub mod Gdt
pub mod Idt
pub mod Isr
pub mod Pic
pub mod Tty
