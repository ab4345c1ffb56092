-- ===== src/Service.antt =====
-- `TaskServiceServicer` of services/task_service/infrastructure/grpc_server.py: the six handlers on
-- the servicer's repository, whose session is the event store's. A request is a record of what the
-- handlers read of it. `context.abort` ends the call, so it is the reply.
pub mod Stale
pub mod Refusals
pub mod Integrity
mod Tests
use taskforge_platform.Common.{
  ℕ, Bool, true, false, String, Option, none, some, List, [], ◌∷◌, map, is_nil, is_empty,
  if◌then◌else◌, Runtime, Datetime,
}
use taskforge_platform.Common.Integer.{ℤ}
use taskforge_platform.Common.Dict.{Dict, contains, insert}
use taskforge_platform.Common.Value.{Value, str, number, items, Values, nil, cons, object}
use taskforge_platform.Common.Result.{⊤, Result, ok, err}
use taskforge_platform.EventSourcing.{DomainEvent, mark_events_committed}
use taskforge_platform.Task.Errors.{
  Error, value_error, domain, task_not_found, invalid_task_state_transition, task_version_conflict,
}
use taskforge_platform.Task.Commands.{
  CreateTaskCommand, UpdateTaskCommand, AssignTaskCommand, DeleteTaskCommand,
}
use taskforge_platform.Task.Events.{TaskEvent, event_type}
use taskforge_platform.Task.Events.Serial
use taskforge_platform.Task.Aggregate.{TaskAggregate}
use taskforge_platform.Task.Aggregate.View.{to_dict}
use taskforge_platform.Task.Aggregate.Methods.{Fresh, Call, create, update, assign, delete}
use taskforge_platform.Persistence.Reads.{get_events}
use taskforge_platform.Persistence.Repository.{save_in_unit}
use taskforge_platform.Persistence.Tasks.{TaskRepository, stored_call, get_by_id}

pub data StatusCode : Type 0 where
  not_found failed_precondition aborted invalid_argument internal : StatusCode

-- The details of an abort: `str(e)`, f"Task {id} not found" or "Internal error".
pub data Details : Type 0 where
  of_error : Error → Details
  no_task : String → Details
  internal_error : Details

-- `uncaught` is an exception that leaves the handler.
pub data Reply (A : Type 0) : Type 0 where
  reply : A → Reply A
  abort : StatusCode → Details → Reply A
  uncaught : Error → Reply A

abbrev pub Handler : Type 0 → Type 0
Handler A = TaskRepository → Reply A × TaskRepository

pub record CreateTaskRequest : Type 0 where
  pub title : String
  pub description : String
  pub priority : String
  pub assignee_id : String
  pub created_by : String
  pub labels : List String
  pub due_date : Option Datetime

-- A field under `HasField` or `hasattr` is an option.
pub record UpdateTaskRequest : Type 0 where
  pub task_id : String
  pub title : Option String
  pub description : Option String
  pub status : Option String
  pub priority : Option String
  pub labels : List String
  pub updated_by : Option String
  pub expected_version : ℤ

pub record AssignTaskRequest : Type 0 where
  pub task_id : String
  pub new_assignee_id : String
  pub assigned_by : Option String
  pub expected_version : ℤ

pub record DeleteTaskRequest : Type 0 where
  pub task_id : String
  pub deleted_by : Option String
  pub reason : Option String
  pub expected_version : ℤ

abbrev pub or_system : Option String → String
or_system none = "system"
or_system (some s) = s

unfoldable pub create_command : CreateTaskRequest → CreateTaskCommand
create_command q = record {
  title = q.title;
  description = q.description;
  priority = q.priority;
  assignee_id = if is_empty q.assignee_id then none else some q.assignee_id;
  created_by = q.created_by;
  labels = q.labels;
  due_date = q.due_date;
}

unfoldable pub update_command : UpdateTaskRequest → UpdateTaskCommand
update_command q = record {
  task_id = q.task_id;
  title = q.title;
  description = q.description;
  status = q.status;
  priority = q.priority;
  assignee_id = none;
  labels = if is_nil q.labels then none else some q.labels;
  due_date = none;
  updated_by = or_system q.updated_by;
  expected_version = q.expected_version;
}

unfoldable pub assign_command : AssignTaskRequest → AssignTaskCommand
assign_command q = record {
  task_id = q.task_id;
  new_assignee_id = q.new_assignee_id;
  assigned_by = or_system q.assigned_by;
  expected_version = q.expected_version;
}

unfoldable pub delete_command : DeleteTaskRequest → DeleteTaskCommand
delete_command q = record {
  task_id = q.task_id;
  deleted_by = or_system q.deleted_by;
  reason = q.reason;
  expected_version = q.expected_version;
}

-- The `except` clauses of `CreateTask`, of `UpdateTask`, and of `AssignTask` and `DeleteTask`.
unfoldable pub abort_create : {A : Type 0} → Error → Reply A
abort_create (value_error ms) = abort invalid_argument (of_error (value_error ms))
abort_create x = abort internal internal_error

unfoldable pub abort_update : {A : Type 0} → String → Error → Reply A
abort_update id (domain (task_not_found t)) = abort not_found (no_task id)
abort_update id (domain (invalid_task_state_transition s t)) =
    abort failed_precondition (of_error (domain (invalid_task_state_transition s t)))
abort_update id (domain (task_version_conflict t e a)) =
    abort aborted (of_error (domain (task_version_conflict t e a)))
abort_update id (value_error ms) = abort invalid_argument (of_error (value_error ms))
abort_update id x = abort internal internal_error

unfoldable pub abort_other : {A : Type 0} → String → Error → Reply A
abort_other id (domain (task_not_found t)) = abort not_found (no_task id)
abort_other id (domain (task_version_conflict t e a)) =
    abort aborted (of_error (domain (task_version_conflict t e a)))
abort_other id x = abort internal internal_error

-- A change of the task object, which is the one in the cache if its id is there.
unfoldable pub share : TaskAggregate → TaskRepository → TaskRepository
unfolding contains insert
share a r =
    if contains a.aggregate_id r.cache
    then record r { cache = insert a.aggregate_id a r.cache }
    else r

-- The end of the block that saves a task: a commit that returned has marked its events committed.
unfoldable pub saved :
    TaskAggregate → Result Error ⊤ → TaskRepository → Result Error TaskAggregate × TaskRepository
unfolding share mark_events_committed
saved a (ok _) r = let b = mark_events_committed a in (ok b, share b r)
saved a (err x) r = (err x, r)

unfoldable pub save_task :
    TaskAggregate → Option ℤ → TaskRepository → Result Error TaskAggregate × TaskRepository
unfolding saved save_in_unit event_type
save_task a expected r =
    let (x, r', u) = save_in_unit (λ e. event_type e.body) a expected r in saved a x r'

-- What a handler answers.
abbrev pub answer :
    {A : Type 0} → (TaskAggregate → A) → (Error → Reply A) → Result Error TaskAggregate → Reply A
answer f on_error (ok a) = reply (f a)
answer f on_error (err x) = on_error x

module _ ⦃rt : Runtime⦄ where
  module _ (frozen : Bool) (f : Fresh) where
    unfoldable pub store_created :
        Result Error TaskAggregate → TaskRepository → Result Error TaskAggregate × TaskRepository
    unfolding save_task
    store_created (err x) r = (err x, r)
    store_created (ok a) r = save_task a none r

    -- `CreateTask`, with the new task's UUID.
    unfoldable pub create_task : String → CreateTaskRequest → Handler (Dict Value)
    unfolding store_created create create_command to_dict abort_create
    create_task id q r =
        let (x, r') = store_created (create frozen f id (create_command q)) r in
        (answer to_dict abort_create x, r')

  module _ (clock : ℕ → Datetime) where
    -- Behind the call of the task's method.
    unfoldable pub after_call :
        ℤ
        → Result Error ⊤
        → TaskAggregate
        → TaskRepository
        → Result Error TaskAggregate × TaskRepository
    unfolding save_task share
    after_call expected (err x) a r = (err x, share a r)
    after_call expected (ok _) a r = save_task a (some expected) (share a r)

    -- Behind the call of `get_by_id`.
    unfoldable pub on_found :
        String
        → Call
        → ℤ
        → Result Error (Option TaskAggregate)
        → TaskRepository
        → Result Error TaskAggregate × TaskRepository
    unfolding after_call
    on_found id m expected (err x) r = (err x, r)
    on_found id m expected (ok none) r = (err (domain (task_not_found id)), r)
    on_found id m expected (ok (some a)) r = let (x, b) = m a in after_call expected x b r

    -- The body of the `try` statement that `UpdateTask`, `AssignTask` and `DeleteTask` share.
    unfoldable pub on_task :
        String → Call → ℤ → TaskRepository → Result Error TaskAggregate × TaskRepository
    unfolding on_found get_by_id
    on_task id m expected r = let (x, r') = get_by_id clock id r in on_found id m expected x r'

    module _ (frozen : Bool) (f : Fresh) where
      unfoldable pub update_task : UpdateTaskRequest → Handler (Dict Value)
      unfolding on_task update update_command to_dict abort_update
      update_task q r =
          let (x, r') =
            on_task q.task_id (update frozen f (update_command q)) q.expected_version r in
          (answer to_dict (abort_update q.task_id) x, r')

      unfoldable pub assign_task : AssignTaskRequest → Handler (Dict Value)
      unfolding on_task assign assign_command to_dict abort_other
      assign_task q r =
          let (x, r') =
            on_task q.task_id (assign frozen f (assign_command q)) q.expected_version r in
          (answer to_dict (abort_other q.task_id) x, r')

      unfoldable pub delete_task : DeleteTaskRequest → Handler Bool
      unfolding on_task delete delete_command abort_other
      delete_task q r =
          let (x, r') =
            on_task q.task_id (delete frozen f (delete_command q)) q.expected_version r in
          (answer (λ _. true) (abort_other q.task_id) x, r')

    unfoldable pub found : String → Result Error (Option TaskAggregate) → Reply (Dict Value)
    unfolding to_dict
    found id (err x) = uncaught x
    found id (ok none) = abort not_found (no_task id)
    found id (ok (some a)) = reply (to_dict a)

    -- `GetTask`
    unfoldable pub get_task : String → Handler (Dict Value)
    unfolding get_by_id found
    get_task id r = let (x, r') = get_by_id clock id r in (found id x, r')

    unfoldable pub history_entry : TaskEvent → Dict Value
    unfolding event_type Serial.to_dict
    history_entry e =
        ("event_id", str e.event_id)
        ∷ ("event_type", str (event_type e.body))
        ∷ ("version", number e.version)
        ∷ ("occurred_at", str (rt.isoformat e.occurred_at))
        ∷ ("data", object (Serial.to_dict e))
        ∷ []

    abbrev pub values_of : List (Dict Value) → Values
    values_of [] = nil
    values_of (d ∷ l) = cons (object d) (values_of l)

    abbrev pub history : Result Error (List TaskEvent) → Reply (Dict Value)
    unfolding history_entry
    history (err x) = uncaught x
    history (ok es) = reply (("events", items (values_of (map history_entry es))) ∷ [])

    -- `GetTaskHistory`
    unfoldable pub get_task_history : String → Handler (Dict Value)
    unfolding get_events history
    get_task_history id r = let (x, r') = stored_call (get_events clock id 0) r in (history x, r')
