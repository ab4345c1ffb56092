-- ===== src/Task/Aggregate/Methods.antt =====
-- The methods of `TaskAggregate` that carry out the commands. `frozen` is the argument of the
-- decorator of the event classes (`EventSourcing.events_frozen`), and `Fresh` is what a new event
-- takes from outside: its UUID and the time.
pub mod Commands
pub mod Sourced
pub mod Changes
pub mod Safety
pub mod Reloaded
use taskforge_platform.Common.{
  String, Bool, false, not, Option, none, some, List, [], ◌∷◌, ◌++◌, map, is_nil, ◌==◌, str_eq,
  if◌then◌else◌, Runtime, Datetime,
}
use taskforge_platform.Common.Dict.{Dict}
use taskforge_platform.Common.Result.{⊤, Result, ok, err, traverse}
use taskforge_platform.Common.Result
use taskforge_platform.Common.Method.{Method, lift, gets, when, ◌>>=◌, ◌>>◌}
use taskforge_platform.EventSourcing.{raise_event, replay, sort_by_version}
use taskforge_platform.Task.Errors.{
  Error, text, has_been_deleted, cannot_transition, frozen_instance, raise_value,
}
use taskforge_platform.Task.Status.{TaskStatus, status_eq, can_transition_to}
use taskforge_platform.Task.Status
use taskforge_platform.Task.Status.Priority.{TaskPriority, priority_eq}
use taskforge_platform.Task.Status.Priority
use taskforge_platform.Task.Values.{
  UserId, label, label_str, task_title, title_str, task_description,
}
use taskforge_platform.Task.Commands.{
  CreateTaskCommand, UpdateTaskCommand, AssignTaskCommand, DeleteTaskCommand, validate_create,
  validate_update, validate_assign, validate_delete,
}
use taskforge_platform.Task.Events.{
  Change, texts, text_lists, TaskEventData, created, updated, assigned, status_changed,
  priority_changed, deleted, TaskEvent,
}
use taskforge_platform.Task.Aggregate.{
  Task, TaskAggregate, new_aggregate, to_status, to_priority, apply_event,
}

pub record Fresh : Type 0 where
  pub event_id : String
  pub now : Datetime

-- `TaskXEvent(aggregate_id=…, …)`; the fields that are not given have their defaults.
abbrev pub new_event : Fresh → String → TaskEventData → TaskEvent
new_event f id b = record {
  event_id = f.event_id;
  aggregate_id = id;
  version = 0;
  occurred_at = f.now;
  metadata = [];
  user_id = "";
  body = b;
}

abbrev pub Call : Type 0
Call = Method TaskAggregate Error ⊤

-- `_validate_not_deleted`
unfoldable pub validate_not_deleted : Call
validate_not_deleted a =
    if a.state.is_deleted
    then (err (raise_value (has_been_deleted a.aggregate_id)), a)
    else (ok tt, a)

-- `_validate_status_transition`
unfoldable pub validate_status_transition : TaskStatus → TaskStatus → Result Error ⊤
unfolding can_transition_to
validate_status_transition s t =
    if not (can_transition_to s t) then err (raise_value (cannot_transition s t)) else ok tt

abbrev pub user_text : Option UserId → Option String
user_text none = none
user_text (some u) = some u.value

-- `previous_assignee and str(previous_assignee) == str(new_assignee)`
abbrev pub is_assigned_to : Option UserId → String → Bool
is_assigned_to none s = false
is_assigned_to (some u) s = u.value == s

module _ ⦃rt : Runtime⦄ where
  -- One entry of `field_changes`, or none, for each field of the command.
  unfoldable pub title_change : Task → Option String → Result Error (Dict Change)
  title_change t none = ok []
  title_change t (some s) =
      if s == title_str t.title
      then ok []
      else Result.◌>>=◌ (task_title s)
          (λ new_title. ok (("title", texts (title_str t.title) (title_str new_title)) ∷ []))

  unfoldable pub description_change : Task → Option String → Result Error (Dict Change)
  description_change t none = ok []
  description_change t (some s) =
      if s == t.description.text_of
      then ok []
      else Result.◌>>=◌ (task_description s)
          (λ new_desc. ok (("description", texts t.description.text_of new_desc.text_of) ∷ []))

  unfoldable pub status_change : Task → Option String → Result Error (Dict Change)
  unfolding to_status Status.value validate_status_transition
  status_change t none = ok []
  status_change t (some s) = Result.◌>>=◌ (to_status s) (λ new_status.
      if new_status == t.status
      then ok []
      else Result.◌>>◌ (validate_status_transition t.status new_status)
          (ok (("status", texts (Status.value t.status) (Status.value new_status)) ∷ [])))

  unfoldable pub priority_change : Task → Option String → Result Error (Dict Change)
  unfolding to_priority Priority.value
  priority_change t none = ok []
  priority_change t (some s) = Result.◌>>=◌ (to_priority s) (λ new_priority.
      if new_priority == t.priority
      then ok []
      else ok (("priority", texts (Priority.value t.priority) (Priority.value new_priority)) ∷ []))

  unfoldable pub labels_change : Task → Option (List String) → Result Error (Dict Change)
  labels_change t none = ok []
  labels_change t (some ls) = Result.◌>>=◌ (traverse label ls) (λ new_labels.
      ok (("labels", text_lists (map label_str t.labels) (map label_str new_labels)) ∷ []))

  -- The `field_changes` that `update` collects; its keys are distinct, so an entry is appended.
  unfoldable pub collect_changes : Task → UpdateTaskCommand → Result Error (Dict Change)
  unfolding title_change description_change status_change priority_change labels_change
  collect_changes t c = Result.◌>>=◌ (title_change t c.title) (λ a.
      Result.◌>>=◌ (description_change t c.description) (λ b.
        Result.◌>>=◌ (status_change t c.status) (λ d.
          Result.◌>>=◌ (priority_change t c.priority) (λ e.
            Result.◌>>=◌ (labels_change t c.labels) (λ f. ok (a ++ (b ++ (d ++ (e ++ f)))))))))

  module _ (frozen : Bool) (f : Fresh) where
    -- `self.raise_event(TaskXEvent(aggregate_id=self.aggregate_id, …))`
    unfoldable pub emit : TaskEventData → Call
    unfolding raise_event apply_event
    emit b a = raise_event apply_event frozen frozen_instance (new_event f a.aggregate_id b) a

    unfoldable pub update : UpdateTaskCommand → Call
    unfolding validate_update validate_not_deleted collect_changes
    update c = do
      lift (validate_update c)
      validate_not_deleted
      t ← gets (λ a. a.state)
      field_changes ← lift (collect_changes t c)
      when (not (is_nil field_changes))
          (emit (updated (record { field_changes = field_changes; updated_by = c.updated_by })))

    unfoldable pub assign : AssignTaskCommand → Call
    unfolding validate_assign validate_not_deleted
    assign c = do
      lift (validate_assign c)
      validate_not_deleted
      previous ← gets (λ a. a.state.assignee_id)
      when (not (is_assigned_to previous c.new_assignee_id)) (
          emit (
            assigned (record {
              previous_assignee_id = user_text previous;
              new_assignee_id = c.new_assignee_id;
              assigned_by = c.assigned_by;
            })))

    unfoldable pub change_status : TaskStatus → String → Option String → Call
    unfolding validate_not_deleted validate_status_transition Status.value
    change_status new_status changed_by reason = do
      validate_not_deleted
      status ← gets (λ a. a.state.status)
      lift (validate_status_transition status new_status)
      when (not (new_status == status)) (
          emit (
            status_changed (record {
              previous_status = Status.value status;
              new_status = Status.value new_status;
              changed_by = changed_by;
              reason = reason;
            })))

    unfoldable pub change_priority : TaskPriority → String → Call
    unfolding validate_not_deleted Priority.value
    change_priority new_priority changed_by = do
      validate_not_deleted
      priority ← gets (λ a. a.state.priority)
      when (not (new_priority == priority)) (
          emit (
            priority_changed (record {
              previous_priority = Priority.value priority;
              new_priority = Priority.value new_priority;
              changed_by = changed_by;
            })))

    unfoldable pub delete : DeleteTaskCommand → Call
    unfolding validate_delete validate_not_deleted
    delete c = do
      lift (validate_delete c)
      validate_not_deleted
      emit (deleted (record { deleted_by = c.deleted_by; reason = c.reason }))

    -- The event of `create`.
    abbrev pub created_event : CreateTaskCommand → TaskEventData
    created_event c = created (record {
      title = c.title;
      description = c.description;
      priority = c.priority;
      assignee_id = c.assignee_id;
      created_by = c.created_by;
      labels = c.labels;
      due_date = elim c.due_date [ none ↦ none | some d ↦ some (rt.isoformat d) ];
    })

    -- `TaskAggregate.create`, with the new task's UUID; the aggregate is lost if it raises.
    unfoldable pub create : String → CreateTaskCommand → Result Error TaskAggregate
    unfolding validate_create new_aggregate emit
    create id c =
        Result.◌>>◌ (validate_create c)
          (let (r, a) = emit (created_event c) (new_aggregate id) in Result.◌>>◌ r (ok a))

  -- The loop of `from_events` over the sorted stream; what was built is lost if it raises.
  unfoldable pub rebuild : List TaskEvent → TaskAggregate → Result Error TaskAggregate
  unfolding replay
  rebuild es a = let (r, b) = replay apply_event es a in Result.◌>>◌ r (ok b)

  unfoldable pub from_events : List TaskEvent → Result Error TaskAggregate
  unfolding sort_by_version rebuild
  from_events [] = err (raise_value (text "Cannot reconstitute from empty event stream"))
  from_events (e ∷ es) = rebuild (sort_by_version (e ∷ es)) (new_aggregate e.aggregate_id)
