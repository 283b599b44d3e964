-- ===== src/Task.antt =====
-- kernel/task: the scheduler, the cooperative tasks and the context switch.
pub mod Search
pub mod Scheduler
pub mod Switch
pub mod Yield
mod Tests
