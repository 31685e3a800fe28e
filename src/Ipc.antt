-- ===== src/Ipc.antt =====
-- internal/ipc: the messages and the framing of the daemon's socket.
pub mod Message
pub mod Codec
