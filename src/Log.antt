-- ===== src/Log.antt =====
-- internal/log: the ring of lines and the splitter that makes lines of a byte stream.
pub mod Rotator
pub mod Line
pub mod RingBuffer
pub mod LineBuffer
