-- ===== src/Task/Aggregate.antt =====
-- `TaskAggregate` of services/task_service/domain/aggregates.py: its fields and `apply_event`. The
-- methods that carry out the commands are in `Aggregate/Methods`.
pub mod Methods
pub mod Times
pub mod View
use Prim.Native.Nat.{zero, suc}
use taskforge_platform.Common.{
  String, Bool, true, false, Option, none, some, List, [], ◌∷◌, is_empty, Runtime, Datetime,
}
use Prim.Native.String
use taskforge_platform.Common.Dict.{Dict, lookup}
use taskforge_platform.Common.Result.{⊤, Result, ok, err, traverse}
use taskforge_platform.Common.Method.{Method, pure, lift, modify, for_some, ◌>>=◌, ◌>>◌}
use taskforge_platform.EventSourcing.{DomainEvent, AggregateRoot}
use taskforge_platform.Task.Errors.{Error, not_a_member, not_iso, type_error, raise_value}
use taskforge_platform.Task.Status.{TaskStatus, backlog}
use taskforge_platform.Task.Status
use taskforge_platform.Task.Status.Priority.{TaskPriority, medium}
use taskforge_platform.Task.Status.Priority
use taskforge_platform.Task.Values.{
  UserId, Label, TaskDescription, TaskTitle, DueDate, TaskMetadata, label, task_title,
  task_description, due_date, default_metadata, increment_priority_changes,
  increment_assignee_changes,
}
use taskforge_platform.Task.Events.{
  Change, texts, text_lists, TaskCreated, TaskUpdated, TaskAssigned, TaskStatusChanged,
  TaskPriorityChanged, TaskEventData, created, updated, assigned, status_changed, priority_changed,
  deleted, TaskEvent,
}

-- The fields of `TaskAggregate` beside those of `AggregateRoot`.
pub record Task : Type 0 where
  pub title : TaskTitle
  pub description : TaskDescription
  pub priority : TaskPriority
  pub status : TaskStatus
  pub assignee_id : Option UserId
  pub created_by : Option UserId
  pub labels : List Label
  pub due : DueDate
  pub metadata : TaskMetadata
  pub created_at : Option Datetime
  pub updated_at : Option Datetime
  pub is_deleted : Bool

abbrev pub TaskAggregate : Type 0
TaskAggregate = AggregateRoot Task TaskEventData

-- The defaults of `__init__`.
unfoldable pub new_task : Task
unfolding default_metadata
new_task = record {
  title = record { text_of = "Untitled" };
  description = record { text_of = "" };
  priority = medium;
  status = backlog;
  assignee_id = none;
  created_by = none;
  labels = [];
  due = record { date = none };
  metadata = default_metadata;
  created_at = none;
  updated_at = none;
  is_deleted = false;
}

-- `cls(aggregate_id=id)`
unfoldable pub new_aggregate : String → TaskAggregate
unfolding new_task
new_aggregate id = record { aggregate_id = id; uncommitted = []; version = 0; state = new_task }

unfoldable pub to_status : String → Result Error TaskStatus
to_status s = elim (Status.parse s) [
  | none ↦ err (raise_value (not_a_member s "TaskStatus"))
  | some t ↦ ok t
]

unfoldable pub to_priority : String → Result Error TaskPriority
to_priority s = elim (Priority.parse s) [
  | none ↦ err (raise_value (not_a_member s "TaskPriority"))
  | some p ↦ ok p
]

-- `UserId(s) if s else None`
abbrev pub user_if : Option String → Option UserId
user_if none = none
user_if (some s) = elim (is_empty s) [ true ↦ none | false ↦ some (record { value = s }) ]

-- The letters of a text, over which a comprehension runs if it is given a text for a list.
abbrev letters : String → List String
letters String.[] = []
letters (String.◌∷◌ c s) = String.◌∷◌ c String.[] ∷ letters s

-- `change["new"]` where a text is wanted. A list there is refused, though the source would keep one
-- of at most 5000 elements as a description; no event that the program makes carries one.
unfoldable pub new_text : Change → Result Error String
new_text (texts old new_value) = ok new_value
new_text (text_lists old new_value) = err type_error

-- `change["new"]` where a list is wanted.
unfoldable pub new_list : Change → List String
new_list (texts old new_value) = letters new_value
new_list (text_lists old new_value) = new_value

module _ ⦃rt : Runtime⦄ where
  -- `DueDate(datetime.fromisoformat(s)) if s else DueDate()`
  unfoldable pub to_due_date : Option String → Result Error DueDate
  to_due_date none = ok (due_date none)
  to_due_date (some s) = elim (is_empty s) [
    | true ↦ ok (due_date none)
    | false ↦ elim (rt.fromisoformat s) [
      | none ↦ err (raise_value (not_iso s))
      | some d ↦ ok (due_date (some d))
    ]
  ]

  apply_created : Datetime → TaskCreated → Method Task Error ⊤
  unfolding to_priority to_due_date
  apply_created at e = do
    title ← lift (task_title e.title)
    modify (λ t. record t { title = title })
    description ← lift (task_description e.description)
    modify (λ t. record t { description = description })
    priority ← lift (to_priority e.priority)
    modify (λ t. record t {
      priority = priority;
      status = backlog;
      assignee_id = user_if e.assignee_id;
      created_by = some (record { value = e.created_by });
    })
    labels ← lift (traverse label e.labels)
    modify (λ t. record t { labels = labels })
    due ← lift (to_due_date e.due_date)
    modify (λ t. record t {
      due = due;
      created_at = some at;
      updated_at = some at;
      is_deleted = false;
    })

  -- One `if "…" in changes:` of `_apply_updated` each.
  update_title : Dict Change → Method Task Error ⊤
  unfolding new_text lookup
  update_title changes = for_some (lookup "title" changes) λ c. do
    s ← lift (new_text c)
    title ← lift (task_title s)
    modify (λ t. record t { title = title })

  update_description : Dict Change → Method Task Error ⊤
  unfolding new_text lookup
  update_description changes = for_some (lookup "description" changes) λ c. do
    s ← lift (new_text c)
    description ← lift (task_description s)
    modify (λ t. record t { description = description })

  update_status : Dict Change → Method Task Error ⊤
  unfolding to_status new_text lookup
  update_status changes = for_some (lookup "status" changes) λ c. do
    s ← lift (new_text c)
    status ← lift (to_status s)
    modify (λ t. record t { status = status })

  update_priority : Dict Change → Method Task Error ⊤
  unfolding to_priority new_text lookup
  update_priority changes = for_some (lookup "priority" changes) λ c. do
    s ← lift (new_text c)
    priority ← lift (to_priority s)
    modify (λ t. record t { priority = priority; metadata = increment_priority_changes t.metadata })

  update_labels : Dict Change → Method Task Error ⊤
  unfolding new_list lookup
  update_labels changes = for_some (lookup "labels" changes) λ c. do
    labels ← lift (traverse label (new_list c))
    modify (λ t. record t { labels = labels })

  apply_updated : Datetime → TaskUpdated → Method Task Error ⊤
  unfolding update_title update_description update_status update_priority update_labels
  apply_updated at e = do
    update_title e.field_changes
    update_description e.field_changes
    update_status e.field_changes
    update_priority e.field_changes
    update_labels e.field_changes
    modify (λ t. record t { updated_at = some at })

  apply_assigned : Datetime → TaskAssigned → Method Task Error ⊤
  apply_assigned at e = modify (λ t. record t {
    assignee_id = some (record { value = e.new_assignee_id });
    metadata = increment_assignee_changes t.metadata;
    updated_at = some at;
  })

  apply_status_changed : Datetime → TaskStatusChanged → Method Task Error ⊤
  unfolding to_status
  apply_status_changed at e = do
    status ← lift (to_status e.new_status)
    modify (λ t. record t { status = status; updated_at = some at })

  apply_priority_changed : Datetime → TaskPriorityChanged → Method Task Error ⊤
  unfolding to_priority
  apply_priority_changed at e = do
    priority ← lift (to_priority e.new_priority)
    modify (λ t. record t {
      priority = priority;
      metadata = increment_priority_changes t.metadata;
      updated_at = some at;
    })

  apply_deleted : Datetime → Method Task Error ⊤
  apply_deleted at = modify (λ t. record t { is_deleted = true; updated_at = some at })

  apply_data : Datetime → TaskEventData → Method Task Error ⊤
  unfolding apply_created apply_updated apply_assigned apply_status_changed apply_priority_changed
      apply_deleted
  apply_data at (created c) = apply_created at c
  apply_data at (updated c) = apply_updated at c
  apply_data at (assigned c) = apply_assigned at c
  apply_data at (status_changed c) = apply_status_changed at c
  apply_data at (priority_changed c) = apply_priority_changed at c
  apply_data at (deleted c) = apply_deleted at

  -- `apply_event`: the dispatch on the class of the event.
  unfoldable pub apply_event : TaskEvent → Method Task Error ⊤
  unfolding apply_data
  apply_event e = apply_data e.occurred_at e.body
