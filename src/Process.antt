-- ===== src/Process.antt =====
-- The search for the League client's process: src/lcu_process_handler.cpp, its helpers, and the
-- implementations for Linux and Windows.
pub mod Regex
pub mod Helpers
pub mod FileSystem
pub mod Linux
pub mod Handler
pub mod Windows
pub mod Agreement
mod Tests
