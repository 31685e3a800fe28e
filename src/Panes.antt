-- ===== src/Panes.antt =====
-- internal/tui/panes: the log panel (copy mode, its scrolling window, the wrapping and the formatting of its
-- lines, the mouse) and the sidebar.
pub mod Sidebar
pub mod Mouse
pub mod Text
pub mod Sql
pub mod Wrap
pub mod Lines
pub mod Matches
pub mod CopyMode
pub mod Cursor
pub mod Words
pub mod Motion
pub mod TextObject
pub mod Extract
pub mod Window
