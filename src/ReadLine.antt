-- ===== src/ReadLine.antt =====
-- read_line/main.c: reading one line from a file descriptor, byte by byte.
pub mod Loop
pub mod Line
mod Tests
