-- ===== src/Signals.antt =====
-- signalfd01/main.c: a process that reads the signals that it has blocked.
pub mod Process
pub mod Lines
mod Tests
