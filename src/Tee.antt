-- ===== src/Tee.antt =====
-- linux/tee01/main.c
pub mod Loop
pub mod Copies
mod Tests
