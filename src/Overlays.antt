-- ===== src/Overlays.antt =====
-- internal/tui/overlays: the stack of toasts, and the pickers of a group and of a branch.
pub mod Toast
pub mod GroupPicker
pub mod BranchPicker
