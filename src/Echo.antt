-- ===== src/Echo.antt =====
-- The servers that send back in upper case what they receive.
pub mod Connection
pub mod Prefork
pub mod Family
pub mod Datagram
pub mod Udp
pub mod Clients
pub mod Tcp
pub mod Accept
mod Tests
