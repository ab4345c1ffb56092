-- ===== src/Task/Errors.antt =====
-- The exceptions of the task service: the classes of
-- services/task_service/domain/exceptions.py, and what the service raises from Python's own.
-- A message is kept as its parts: the fixed text of a literal, or the values that an f-string puts
-- in, so that nothing depends on how numbers print.
use taskforge_platform.Common.{ℕ, String, Bool, List, [], ◌∷◌, is_nil, if◌then◌else◌}
use taskforge_platform.Common.Integer.{ℤ}
use taskforge_platform.Common.Result.{⊤, Result, ok, err}
use taskforge_platform.Task.Status.{TaskStatus}

pub data Message : Type 0 where
  text : String → Message
  invalid : String → String → Message  -- f"Invalid {what}: {value}"
  not_a_member : String → String → Message  -- "{value!r} is not a valid {class}"
  has_been_deleted : String → Message  -- f"Task {id} has been deleted"
  cannot_transition : TaskStatus → TaskStatus → Message
  version_conflict : String → ℤ → ℕ → Message  -- the event store's, with the two versions
  not_iso : String → Message  -- f"Invalid isoformat string: {value!r}"

-- `TaskDomainError` and its subclasses, with the arguments of each.
pub data TaskDomainError : Type 0 where
  task_not_found : String → TaskDomainError
  task_already_deleted : String → TaskDomainError
  invalid_task_state_transition : String → String → TaskDomainError
  task_version_conflict : String → ℤ → ℤ → TaskDomainError
  unauthorized_task_access : String → String → String → TaskDomainError

-- The attribute `code` that each class sets.
unfoldable pub code : TaskDomainError → String
code (task_not_found t) = "TASK_NOT_FOUND"
code (task_already_deleted t) = "TASK_DELETED"
code (invalid_task_state_transition a b) = "INVALID_TRANSITION"
code (task_version_conflict t e a) = "VERSION_CONFLICT"
code (unauthorized_task_access u t o) = "UNAUTHORIZED"

-- `value_error` holds the messages that the source joins with "; ".
pub data Error : Type 0 where
  value_error : List Message → Error
  domain : TaskDomainError → Error
  frozen_instance : Error  -- dataclasses.FrozenInstanceError
  type_error : Error
  runtime_error : String → Error
  aborted_transaction : Error  -- a statement after a refused one
  -- No exception: where the source goes on with a value of another type than the model's.
  ill_typed : Error
  integrity_error : Error  -- a unique index of the table refuses a row
  kafka_error : Error

abbrev pub raise_value : Message → Error
raise_value m = value_error (m ∷ [])

-- `errors.append(m)` under a condition.
abbrev pub note : Bool → Message → List Message
note b m = if b then m ∷ [] else []

-- `if errors: raise ValueError("; ".join(errors))`
abbrev pub raise_errors : List Message → Result Error ⊤
raise_errors ms = if is_nil ms then ok tt else err (value_error ms)
