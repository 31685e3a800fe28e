-- ===== src/Process.antt =====
-- internal/process: the restart policy, and the supervised process.
pub mod Policy
pub mod Child
pub mod Manager
