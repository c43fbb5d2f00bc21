-- ===== src/Filters.antt =====
-- futuu_no_linux_programming: the filters wc, cat, head and tail.
pub mod Input
pub mod Wc
pub mod Cat
pub mod EchoPrint
pub mod Blocks
pub mod Escape
pub mod Head
pub mod HeadMain
pub mod Tail
pub mod Ring
pub mod LastLines
pub mod Mains
mod Tests
