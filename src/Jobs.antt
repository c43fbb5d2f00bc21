-- ===== src/Jobs.antt =====
-- thread_pool02: the binary semaphore and the job queue, a linked list of jobs.
pub mod Semaphore
pub mod Queue
pub mod Segment
pub mod Refine
pub mod Drain
mod Tests
