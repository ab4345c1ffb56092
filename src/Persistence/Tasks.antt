-- ===== src/Persistence/Tasks.antt =====
-- The reading half of `TaskRepository` of services/task_service/infrastructure/repository.py:
-- `get_by_id` with its cache, and `list_tasks`. The cache holds the task objects themselves: what
-- a caller does to the task that `get_by_id` answered is done to the cached task.
pub mod Loads
pub mod Listing
use taskforge_platform.Common.{
  ℕ, ◌*◌, Bool, true, false, not, ◌&&◌, ◌||◌, String, Option, none, some, List, [], ◌∷◌, ◌++◌, leb,
  ltb, ◌==◌, str_eq, length, is_empty, if◌then◌else◌, Runtime, Datetime,
}
use taskforge_platform.Common.Dict.{Dict, lookup, get_or, insert, values}
use taskforge_platform.Common.Result.{Result, ok, err}
use taskforge_platform.Common.Method.{Method, ◌>>=◌, pure, raise}
use taskforge_platform.Task.Errors.{Error}
use taskforge_platform.Task.Status
use taskforge_platform.Task.Values.{UserId}
use taskforge_platform.Task.Events.{TaskEventData, TaskEvent}
use taskforge_platform.Task.Aggregate.{Task, TaskAggregate}
use taskforge_platform.Task.Aggregate.Methods.{from_events}
use taskforge_platform.Persistence.Store.{Session}
use taskforge_platform.Persistence.Reads.{get_events, get_all_events}
use taskforge_platform.Persistence.Repository.{Repository}

abbrev pub TaskRepository : Type 0
TaskRepository = Repository Task TaskEventData

-- A call of the event store.
abbrev pub stored_call :
    {A : Type 0} → Method (Session TaskEventData) Error A → Method TaskRepository Error A
stored_call m r = let (x, s) = m r.session in (x, record r { session = s })

-- A filter that is None or empty lets everything pass.
abbrev pub wanted : Option String → (String → Bool) → Bool
wanted none p = true
wanted (some s) p = is_empty s || p s

-- `task.assignee_id and str(task.assignee_id) == s`; a `UserId` is always true.
abbrev pub is_assignee : Option UserId → String → Bool
is_assignee none s = false
is_assignee (some u) s = u.value == s

-- The tests of the loop of `list_tasks`, passed.
unfoldable pub passes : Option String → Option String → TaskAggregate → Bool
unfolding Status.value
passes status assignee a =
    not a.state.is_deleted
    && (wanted status (λ s. Status.value a.state.status == s)
        && wanted assignee (λ s. is_assignee a.state.assignee_id s))

-- The events by aggregate, in the order of their first events.
unfoldable pub group_events : List TaskEvent → Dict (List TaskEvent) → Dict (List TaskEvent)
unfolding insert get_or
group_events [] groups = groups
group_events (e ∷ es) groups =
    group_events es (insert e.aggregate_id (get_or e.aggregate_id [] groups ++ e ∷ []) groups)

module _ ⦃rt : Runtime⦄ where
  -- What `get_by_id` does with the task that it has rebuilt.
  unfoldable pub cache_task :
      String → Result Error TaskAggregate → Method TaskRepository Error (Option TaskAggregate)
  unfolding insert
  cache_task id (err x) r = (err x, r)
  cache_task id (ok a) r =
      if a.state.is_deleted
      then (ok none, r)
      else (ok (some a), record r { cache = insert id a r.cache })

  -- Behind `events = …`
  unfoldable pub load : String → List TaskEvent → Method TaskRepository Error (Option TaskAggregate)
  unfolding cache_task from_events
  load id [] = pure none
  load id (e ∷ es) = cache_task id (from_events (e ∷ es))

  -- `get_by_id`, with what the cache has.
  unfoldable pub get_cached :
      (ℕ → Datetime)
      → String
      → Option TaskAggregate
      → Method TaskRepository Error (Option TaskAggregate)
  unfolding get_events load
  get_cached clock id (some a) = pure (some a)
  get_cached clock id none = do events ← stored_call (get_events clock id 0); load id events

  unfoldable pub get_by_id :
      (ℕ → Datetime) → String → Method TaskRepository Error (Option TaskAggregate)
  unfolding get_cached lookup
  get_by_id clock id r = get_cached clock id (lookup id r.cache) r

  -- The body of the loop of `list_tasks`: the tasks with the next one, if it is listed.
  unfoldable pub add_listed :
      Option String
      → Option String
      → Result Error TaskAggregate
      → List TaskAggregate
      → List TaskAggregate
  unfolding passes
  add_listed status assignee (err x) tasks = tasks
  add_listed status assignee (ok a) tasks =
      if passes status assignee a then tasks ++ a ∷ [] else tasks

  -- The loop, whose `break` is read only behind an `append`.
  unfoldable pub collect_tasks :
      Option String
      → Option String
      → ℕ
      → List (List TaskEvent)
      → List TaskAggregate
      → List TaskAggregate
  unfolding add_listed from_events
  collect_tasks status assignee limit [] tasks = tasks
  collect_tasks status assignee limit (es ∷ groups) tasks =
      let tasks' = add_listed status assignee (from_events es) tasks in
      let rest = collect_tasks status assignee limit groups tasks' in
      if ltb (length tasks) (length tasks') && leb limit (length tasks') then tasks' else rest

  unfoldable pub list_tasks :
      (ℕ → ℕ)
      → (ℕ → Datetime)
      → Option String
      → Option String
      → ℕ
      → ℕ
      → Method TaskRepository Error (List TaskAggregate)
  unfolding get_all_events group_events collect_tasks values
  list_tasks row_id clock status assignee limit offset = do
    events ← stored_call (get_all_events clock row_id offset (limit * 10))
    pure (collect_tasks status assignee limit (values (group_events events [])) [])
