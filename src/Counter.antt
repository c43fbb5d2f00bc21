-- ===== src/Counter.antt =====
-- eventfd01/main.c: two processes that share an eventfd.
pub mod Processes
pub mod Sums
mod Tests
