-- ===== src/Ares.antt =====
-- c-ares01/main.c: a lookup of a host name, and the loop that waits for it.
pub mod Library
pub mod Lookup
pub mod Wait
mod Tests
