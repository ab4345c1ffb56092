-- ===== src/Task/Commands.antt =====
-- The commands of services/task_service/domain/commands.py and the `validate` method of each.
-- `command_id`, a fresh UUID that nothing reads, is left out.
use taskforge_platform.Common.{
  String, Bool, true, false, not, ◌&&◌, ◌||◌, Option, none, some, List, [], ◌∷◌, ◌++◌, map, ltb,
  ◌==◌, str_eq, str_len, is_empty, Datetime,
}
use taskforge_platform.Common.Integer.{ℤ}
use taskforge_platform.Common.Result.{⊤, Result}
use taskforge_platform.Task.Errors.{Message, text, invalid, Error, note, raise_errors}
use taskforge_platform.Task.Status.{backlog, todo, in_progress, in_review, done, archived}
use taskforge_platform.Task.Status
use taskforge_platform.Task.Status.Priority.{low, medium, high, critical}
use taskforge_platform.Task.Status.Priority

pub record CreateTaskCommand : Type 0 where
  pub title : String
  pub description : String
  pub priority : String
  pub assignee_id : Option String
  pub created_by : String
  pub labels : List String
  pub due_date : Option Datetime

pub record UpdateTaskCommand : Type 0 where
  pub task_id : String
  pub title : Option String
  pub description : Option String
  pub status : Option String
  pub priority : Option String
  pub assignee_id : Option String
  pub labels : Option (List String)
  pub due_date : Option Datetime
  pub updated_by : String
  pub expected_version : ℤ

pub record AssignTaskCommand : Type 0 where
  pub task_id : String
  pub new_assignee_id : String
  pub assigned_by : String
  pub expected_version : ℤ

pub record DeleteTaskCommand : Type 0 where
  pub task_id : String
  pub deleted_by : String
  pub reason : Option String
  pub expected_version : ℤ

-- `s in [v, …]`
unfoldable pub is_one_of : String → List String → Bool
is_one_of s [] = false
is_one_of s (v ∷ l) = s == v || is_one_of s l

-- `[s.value for s in TaskStatus]`
unfoldable pub status_values : List String
unfolding Status.value
status_values = map Status.value (backlog ∷ todo ∷ in_progress ∷ in_review ∷ done ∷ archived ∷ [])

-- `[p.value for p in TaskPriority]`
unfoldable pub priority_values : List String
unfolding Priority.value
priority_values = map Priority.value (low ∷ medium ∷ high ∷ critical ∷ [])

-- A test on an optional field, false where the field is None.
abbrev pub given {ℓ} : {A : Type ℓ} → (A → Bool) → Option A → Bool
given p none = false
given p (some a) = p a

-- `d.tzinfo is None`
abbrev pub is_naive : Datetime → Bool
is_naive d = elim d.tzinfo [ none ↦ true | some z ↦ false ]

unfoldable pub create_errors : CreateTaskCommand → List Message
unfolding is_one_of priority_values
create_errors c =
    note (is_empty c.title || ltb (str_len c.title) 3) (text "Title must be at least 3 characters")
    ++ (note (ltb 200 (str_len c.title)) (text "Title cannot exceed 200 characters")
        ++ (note (ltb 5000 (str_len c.description))
              (text "Description cannot exceed 5000 characters")
            ++ (note (is_empty c.created_by) (text "Created by user ID is required")
                ++ (note (not (is_one_of c.priority priority_values))
                      (invalid "priority" c.priority)
                    ++ note (given is_naive c.due_date) (text "Due date must be timezone-aware")))))

-- `CreateTaskCommand.validate`
unfoldable pub validate_create : CreateTaskCommand → Result Error ⊤
unfolding create_errors
validate_create c = raise_errors (create_errors c)

unfoldable pub update_errors : UpdateTaskCommand → List Message
unfolding is_one_of status_values priority_values
update_errors c =
    note (is_empty c.task_id) (text "Task ID is required")
    ++ (note (is_empty c.updated_by) (text "Updated by user ID is required")
        ++ (note (given (λ t. ltb (str_len t) 3 || ltb 200 (str_len t)) c.title)
              (text "Title must be between 3 and 200 characters")
            ++ (note (given (λ d. ltb 5000 (str_len d)) c.description)
                  (text "Description cannot exceed 5000 characters")
                ++ (note (given (λ s. not (is_empty s) && not (is_one_of s status_values)) c.status)
                      (invalid "status" (elim c.status [ none ↦ "" | some s ↦ s ]))
                    ++ note
                        (given (λ p. not (is_empty p) && not (is_one_of p priority_values))
                          c.priority)
                        (invalid "priority" (elim c.priority [ none ↦ "" | some p ↦ p ]))))))

-- `UpdateTaskCommand.validate`
unfoldable pub validate_update : UpdateTaskCommand → Result Error ⊤
unfolding update_errors
validate_update c = raise_errors (update_errors c)

-- `AssignTaskCommand.validate`
unfoldable pub validate_assign : AssignTaskCommand → Result Error ⊤
validate_assign c = raise_errors (
    note (is_empty c.task_id) (text "Task ID is required")
    ++ (note (is_empty c.new_assignee_id) (text "New assignee ID is required")
        ++ note (is_empty c.assigned_by) (text "Assigned by user ID is required")))

-- `DeleteTaskCommand.validate`
unfoldable pub validate_delete : DeleteTaskCommand → Result Error ⊤
validate_delete c = raise_errors (
    note (is_empty c.task_id) (text "Task ID is required")
    ++ note (is_empty c.deleted_by) (text "Deleted by user ID is required"))
