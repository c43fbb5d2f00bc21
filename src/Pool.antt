-- ===== src/Pool.antt =====
-- thread_pool02: the workers of the pool, and the thread that uses the pool, as interleaved steps.
pub mod Worker
pub mod System
pub mod Invariant
pub mod Safety
pub mod Release
pub mod Progress
pub mod Waiter
pub mod Wakeup
pub mod Queue
pub mod Blocks
pub mod Loops
pub mod Create
pub mod Started
mod Tests
