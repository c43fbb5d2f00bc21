-- ===== src/Opening.antt =====
-- How the servers and two clients make their sockets.
pub mod Calls
