-- ===== src/Daemon.antt =====
-- internal/daemon: the state of the daemon, the commands that it carries out, and the queues towards the
-- connected client.
pub mod ClientConn
pub mod Server
pub mod Reload
pub mod Dispatch
