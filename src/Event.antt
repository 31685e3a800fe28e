-- ===== src/Event.antt =====
-- internal/event/event.go: the lifecycle events. Times are numbers, as in Log/Line.antt.
use randomshitgo_go.Prelude.{ℕ, List, Bool, String}
use randomshitgo_go.Prelude.Int.{ℤ}

pub record StartedEvent : Type 0 where
  pub id : String
  pub pid : ℤ
  pub at : ℕ

pub record ExitedEvent : Type 0 where
  pub id : String
  pub code : ℤ
  pub signal : String
  pub at : ℕ

pub record StateChangedEvent : Type 0 where
  pub id : String
  pub state : String

pub record LogLineEvent : Type 0 where
  pub id : String
  pub bytes : List ℕ
  pub is_partial : Bool
  pub at : ℕ

pub record RestartingEvent : Type 0 where
  pub id : String
  pub attempt : ℤ
  pub delay : ℤ

-- The interface `Event` and the types that implement it.
pub data Event : Type 0 where
  started : StartedEvent → Event
  exited : ExitedEvent → Event
  state_changed : StateChangedEvent → Event
  log_line : LogLineEvent → Event
  restarting : RestartingEvent → Event

unfoldable pub project_id : Event → String
project_id (started e) = e.id
project_id (exited e) = e.id
project_id (state_changed e) = e.id
project_id (log_line e) = e.id
project_id (restarting e) = e.id
