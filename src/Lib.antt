-- ===== src/Lib.antt =====
-- procs, a terminal supervisor for the processes of a project: a daemon starts them in
-- pseudo-terminals, keeps their logs and their state, and streams both to a terminal client over a
-- socket. The parts modelled here and the files they are in:
--
-- * Log (internal/log): a process writes raw bytes; `LineBuffer.Feed` (Log/LineBuffer.antt, from
--   linebuffer.go) splits them into lines (Log/Line.antt, from line.go), and a
--   `RingBuffer` (Log/RingBuffer.antt, from ringbuffer.go) keeps the last of them.
--   `Registry` (State/Registry.antt, from internal/state/registry.go) joins the two, and a rotator on
--   disk, into a pipeline per project. `Rotator` (Log/Rotator.antt, from rotator.go) keeps the log file and
--   its backups.
-- * Process (internal/process): the restart policy, asked at every exit (Process/Policy.antt, from
--   restart.go). Its timer and the timer's callback are steps of a relation. `Child`
--   (Process/Child.antt, from child.go) runs one process and asks the policy; its operations as steps are in
--   Process/Child/Life.antt, and the interleavings of their lock regions in Process/Child/Races.antt.
--   `Manager` (Process/Manager.antt, from manager.go) has the children by id and reloads the
--   configuration; Process/Manager/Calls.antt is about its `StopAll`.
-- * Config (internal/config): the configuration, its defaults and its validation (Config.antt, from
--   config.go and defaults.go), and the environment of a process (Config/Env.antt, from env.go).
-- * Event and State (internal/event/event.go, internal/state/runtime.go): the lifecycle events
--   (Event.antt) and `RuntimeStore` (State/Runtime.antt), to which both daemon and client apply them;
--   and `UIStore` (State/Ui.antt, from internal/state/ui.go).
-- * Ipc (internal/ipc): what crosses the socket (Ipc/Message.antt, from message.go) and the frames
--   it crosses in (Ipc/Codec.antt, from codec.go).
-- * Daemon (internal/daemon): the state of the source goroutine (Daemon/Server.antt, from server.go),
--   which applies each event and forwards it to the queues of the one connected client
--   (Daemon/ClientConn.antt, from client_conn.go); and its reload command, over the manager, the
--   configuration and the runtime store (Daemon/Reload.antt). Daemon/Dispatch.antt has the commands that a client
--   sends, with the read loop that hands them over and the goroutines that carry them out, in any order.
-- * Client (internal/client): the mirror of the daemon's stores (Client/Mirror.antt, from client.go), the daemon and its
--   client as one system (Client/Mirror/Delivery.antt), and the
--   commands that the calls of a `RemoteManager` send (Client/RemoteManager.antt, from remote_manager.go).
-- * Panes (internal/tui/panes): the log panel's copy mode: cursor and ranges (Panes/Cursor.antt),
--   byte classes (Panes/Words.antt), motions (Panes/Motion.antt, Panes/Motion/Find.antt and
--   Panes/Motion/Keys.antt, from logpanel_motion_ranges.go), text objects (Panes/TextObject.antt, from
--   logpanel_textobjects.go), the text that a yank takes (Panes/Extract.antt, from logpanel_motion.go)
--   and scrolling (Panes/Window.antt, from logpanel_window.go). The machine that reads the keys of copy
--   mode is Panes/CopyMode.antt (from logpanel_motion.go and logpanel_select.go), the jumps between the
--   matches of a filter are Panes/Matches.antt, the panel's lines and copy mode's way in and out
--   Panes/Lines.antt (both from logpanel.go). Panes/Wrap.antt wraps a line into rows (logpanel_wrap.go),
--   Panes/Sql.antt formats SQL in a line (logpanel_sql.go) with the text functions of Panes/Text.antt, and
--   Panes/Mouse.antt goes from the mouse to the buffer (logpanel_mouse.go). Panes/Sidebar.antt is the list of
--   projects (sidebar.go, with what app.go and handlers.go do to its selection).
-- * Routing (internal/tui): the keys of log focus (Routing.antt, from routing.go and handlers.go); they drive copy mode, the jumps and the pause of the log panel.
--   The commands that are typed after a colon are in Routing/Commands.antt.
-- * Attach (internal/tui/attach): the detector of a double escape (Attach/Escape.antt, from escape.go) and the
--   mouse in the attach pane (Attach/Mouse.antt, from mouse.go and internal/tui/attach_mouse.go).
-- * Overlays (internal/tui/overlays): the stack of notifications (Overlays/Toast.antt, from toast.go) and the
--   pickers of a group and of a branch (Overlays/GroupPicker.antt, Overlays/BranchPicker.antt, from
--   grouppicker.go and branchpicker.go).
--
-- An operation of the source is a function here of the same name in snake case, from a record of the
-- receiver's fields to the results and the new record. A mutex makes an operation one step, so the
-- functions are the steps; where other steps come between, as with timers, a relation says which.
-- Prelude.antt has what the modules share: lists indexed by native numbers (Prelude/Lists.antt), signed
-- integers (Prelude/Int.antt), maps with text keys as association lists (Prelude/Assoc.antt).
--
-- Numbers: Go's `int` is an integer where the source can make it negative, and a natural number where
-- it cannot; the ring's generation wraps at 2^64 and a policy's delays wrap as 64-bit integers do; a
-- frame's length fits in its 32 bits because the limit on frames does. Bytes are numbers
-- below 256. Clock readings are arguments. Loops are structural recursion on the list that they
-- go over or on the number of rounds that are left; the walks over the bytes of a text
-- take the number of the bytes, and the loop over the columns of a screen the number of the columns, which is
-- enough since each round passes at least one; `Ipc.Codec.Frames.read_all` takes the list of
-- the reads. A count of copy mode is the bits of a 64-bit integer and wraps; the motions that it goes into are on natural
-- numbers, and the theorem on them is for counts that do not overflow.
--
-- Not modelled: gob's encoding (its bytes are a parameter), log.DecodeForRender and log.StripANSI
-- (parameters of the server and the registry), the regular-expression engine (its answers are arguments) and
-- the table of strings.ToLower (a parameter), the screen of the terminal emulator (a parameter), the YAML decoder, the
-- system's side of ExpandPath (a parameter of the configuration), sockets, git, statistics, all drawing, and the application's dispatch of keys outside log focus,
-- but for Ctrl+C. What
-- the system answers to a spawn, an exit or a file operation is an argument of the code that asks.
pub mod Prelude
pub mod Log
pub mod Process
pub mod Event
pub mod State
pub mod Panes
pub mod Attach
pub mod Overlays
pub mod Ipc
pub mod Config
pub mod Routing
pub mod Daemon
pub mod Client
