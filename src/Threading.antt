-- ===== src/Threading.antt =====
-- libs/threading: the thread pool.
pub mod Pool
pub mod Chunks
pub mod Stop
mod Tests
