-- ===== src/Shell.antt =====
-- simple_shell01/shell.c.
pub mod Line
pub mod Tokens
pub mod Words
pub mod Execute
pub mod Loop
pub mod Script
mod Tests
