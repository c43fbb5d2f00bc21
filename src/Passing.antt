-- ===== src/Passing.antt =====
-- send_fd_unix_socket: a server that hands an open file to each of its clients.
pub mod Programs
pub mod Leak
mod Tests
