-- ===== src/State.antt =====
-- internal/state: the store of project runtimes, and the log pipelines of the projects.
pub mod Ui
pub mod Runtime
pub mod Registry
