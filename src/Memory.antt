-- ===== src/Memory.antt =====
-- kernel/mm: the managers of physical and of virtual memory.
pub mod Pmm
pub mod Vmm
