-- ===== src/Files.antt =====
-- apue/section04/count_file_types.c.
pub mod Walk
pub mod Buffer
pub mod Holding
pub mod Short
pub mod Printed
pub mod Moved
pub mod Count
mod Tests
