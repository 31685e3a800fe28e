-- ===== src/Routing/Commands/Tests.antt =====
-- internal/tui/handlers.go: typed commands.
use randomshitgo_go.Prelude.{◌≡◌, refl, true, false, not, ◌&&◌, ◌||◌}
use randomshitgo_go.Panes.Text.{codes}
use randomshitgo_go.Routing.Commands.{
  named, command_name, dispatch_command, set_panel, gutter, write_buffer, unknown_command,
  graceful_quit, quit_shutdown, fields, join_words, same_bytes, first_named, cut,
  handle_quit_request,
}
use randomshitgo_go.Routing.Commands.Quitting.{quits_gracefully, shuts_down, dispatch_command-quits}

dispatch_command-quits_example :
    (quits_gracefully (dispatch_command false (codes " quit ")) ≡ (
      not false
      && (named (command_name (codes " quit ")) "q"
          || named (command_name (codes " quit ")) "quit"
          || named (command_name (codes " quit ")) "shutdown")))
    × (shuts_down (dispatch_command false (codes " quit "))
        ≡ named (command_name (codes " quit ")) "shutdown")
dispatch_command-quits_example = dispatch_command-quits false (codes " quit ")

spaces : dispatch_command false (codes "  set   nu ") ≡ set_panel gutter true
unfolding dispatch_command command_name fields join_words same_bytes first_named
spaces = refl

writes : dispatch_command true (codes "w  a.log") ≡ write_buffer (codes "a.log")
unfolding dispatch_command command_name fields join_words same_bytes first_named cut
writes = refl

misspelt : dispatch_command false (codes "quti") ≡ unknown_command (codes "quti")
unfolding dispatch_command command_name fields join_words same_bytes first_named cut
misspelt = refl

shutdown : dispatch_command false (codes "shutdown") ≡ graceful_quit quit_shutdown
unfolding dispatch_command command_name fields join_words same_bytes handle_quit_request
shutdown = refl
