-- ===== src/Net.antt =====
-- Socket/: the system calls, client sockets, the polling server and its listening socket.
pub mod System
pub mod Client
pub mod Poller
pub mod Setup
