-- ===== src/SharedMemory.antt =====
-- The programs of `shared_memory`.
pub mod Chat
pub mod Flag
pub mod Ends
