-- ===== src/TaskPool.antt =====
-- thread_pool01: a pool whose tasks stand in a linked list, and whose threads count themselves out.
pub mod TaskList
pub mod Worker
pub mod System
pub mod Invariant
pub mod Safety
pub mod Hang
mod Tests
