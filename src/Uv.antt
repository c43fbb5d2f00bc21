-- ===== src/Uv.antt =====
-- libuv_tcp_server01/main.c: an upper-casing server of callbacks, and the blocks that it allocates.
pub mod Server
pub mod Blocks
pub mod Account
pub mod Memory
mod Tests
