-- ===== src/Client.antt =====
-- internal/client: the client's mirror of the daemon's state, and its calls to the daemon.
pub mod Mirror
pub mod RemoteManager
