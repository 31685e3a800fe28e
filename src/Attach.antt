-- ===== src/Attach.antt =====
-- internal/tui/attach: the detector of the detach gesture, and the mouse in the attach pane.
pub mod Escape
pub mod Mouse
