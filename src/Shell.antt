-- ===== src/Shell.antt =====
-- kernel/kernel.c: the keyboard, the command line, its history and the environment.
pub mod Strings
pub mod Keyboard
pub mod History
pub mod Env
pub mod Line
