-- ===== src/Chat.antt =====
-- HandsOnNetworkProgrammingWithC/tcp_server_chat01/main.c
pub mod Server
pub mod Inbox
pub mod Handle
pub mod Deliver
pub mod Program
mod Tests
