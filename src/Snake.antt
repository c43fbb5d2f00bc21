-- ===== src/Snake.antt =====
-- snake01/main.cpp.
pub mod Point
pub mod Board
pub mod Game
pub mod Cells
pub mod Move
pub mod Invariant
pub mod Display
pub mod Play
pub mod Rules
pub mod Turn
pub mod Stranded
pub mod FirstRound
mod Tests
