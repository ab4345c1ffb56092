-- ===== src/Task/Events.antt =====
-- The event classes of services/task_service/domain/events.py: the fields that each adds to
-- `DomainEvent`. `event_type` is a field whose default no caller overrides, so it is a function of
-- the class.
pub mod Serial
use taskforge_platform.Common.{String, List, Option}
use taskforge_platform.Common.Dict.{Dict}
use taskforge_platform.EventSourcing.{DomainEvent}

-- The value `{"old": …, "new": …}` of one key of `field_changes`: two texts, or for the labels two
-- lists of texts.
pub data Change : Type 0 where
  texts : (old new_value : String) → Change
  text_lists : (old new_value : List String) → Change

pub record TaskCreated : Type 0 where
  pub title : String
  pub description : String
  pub priority : String
  pub assignee_id : Option String
  pub created_by : String
  pub labels : List String
  pub due_date : Option String

pub record TaskUpdated : Type 0 where
  pub field_changes : Dict Change
  pub updated_by : String

pub record TaskAssigned : Type 0 where
  pub previous_assignee_id : Option String
  pub new_assignee_id : String
  pub assigned_by : String

pub record TaskStatusChanged : Type 0 where
  pub previous_status : String
  pub new_status : String
  pub changed_by : String
  pub reason : Option String

pub record TaskPriorityChanged : Type 0 where
  pub previous_priority : String
  pub new_priority : String
  pub changed_by : String

pub record TaskDeleted : Type 0 where
  pub deleted_by : String
  pub reason : Option String

pub data TaskEventData : Type 0 where
  created : TaskCreated → TaskEventData
  updated : TaskUpdated → TaskEventData
  assigned : TaskAssigned → TaskEventData
  status_changed : TaskStatusChanged → TaskEventData
  priority_changed : TaskPriorityChanged → TaskEventData
  deleted : TaskDeleted → TaskEventData

abbrev pub TaskEvent : Type 0
TaskEvent = DomainEvent TaskEventData

unfoldable pub event_type : TaskEventData → String
event_type (created e) = "task.created"
event_type (updated e) = "task.updated"
event_type (assigned e) = "task.assigned"
event_type (status_changed e) = "task.status_changed"
event_type (priority_changed e) = "task.priority_changed"
event_type (deleted e) = "task.deleted"
