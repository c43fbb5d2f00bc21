-- ===== src/Command.antt =====
-- apue/section01/run_command.c: one command without arguments a line.
pub mod Loop
pub mod Session
mod Tests
