-- ===== src/Service/Tests.antt =====
-- One cached task and one request against the servicer, and the theorems about them.
use taskforge_platform.Common.{
  List, length, Bool-cases, ◌==◌, str_eq, eq_iff, inl, inr, ℕ, ◌≡◌, refl, false, none, [], ◌∷◌,
  Datetime,
}
use taskforge_platform.Common.Integer.{pos}
use taskforge_platform.Common.Dict.{lookup}
use taskforge_platform.Common.Result.{ok, err}
use taskforge_platform.EventSourcing.Replay.{IsSourced-refl}
use taskforge_platform.Task.Errors.{Error}
use taskforge_platform.Task.Aggregate.{apply_event}
use taskforge_platform.Task.Aggregate.View.{to_dict}
use taskforge_platform.Task.Aggregate.Methods.{change_priority}
use taskforge_platform.Task.Aggregate.Methods.Commands.{Command, to_change_priority, execute}
use taskforge_platform.Task.Tests.{
  ascii, or_else, count_time-print_time, first, second, to_todo, program, born, loaded, moved_again,
}
use taskforge_platform.Persistence.Tasks.{TaskRepository}
use taskforge_platform.Service.{CreateTaskRequest, reply, on_task, get_task, create_task}
use taskforge_platform.Service.Integrity.Reach.{
  Arrival, to_create, to_get, serve_all, serve_all-IsGapless, on_task-idle,
}
use taskforge_platform.Persistence.Store.Writes.{rows_of}
use taskforge_platform.Persistence.Integrity.{IsGapless}
use taskforge_platform.Task.Aggregate.{TaskAggregate, new_aggregate}
use taskforge_platform.Task.Status.Priority.{high}
use taskforge_platform.Service.Stale.{get_task-on_task}
use taskforge_platform.Service.Refusals.{IsAbort, create_task-IsAbort}

abbrev clock : ℕ → Datetime
clock n = record { micros = n; tzinfo = none }

abbrev empty : TaskRepository
empty = record { session = record { rows = []; aborted = false }; cache = [] }

abbrev wish : CreateTaskRequest
wish = record {
  title = "write tests";
  description = "";
  priority = "high";
  assignee_id = "";
  created_by = "ann";
  labels = [];
  due_date = none;
}

create_task-IsAbort_example : IsAbort (create_task false first "t1" wish empty).0
create_task-IsAbort_example = create_task-IsAbort false first "t1" wish empty

-- The created task, committed, is in the cache.
holding : TaskRepository
unfolding program born
holding = record { session = record { rows = []; aborted = false }; cache = ("t1", loaded) ∷ [] }

get_task-on_task_example :
    let (y, r') = on_task clock "t1" (execute false second to_todo) (pos 1) holding in
    ((x : Error) × (y ≡ err x)) × (get_task clock "t1" r' ≡ (reply (to_dict moved_again), r'))
unfolding program born moved_again holding lookup
get_task-on_task_example =
    get_task-on_task clock false second to_todo loaded loaded moved_again (pos 1) holding refl
      (IsSourced-refl apply_event loaded refl) refl (λ e. cc)

abbrev arrivals : List Arrival
arrivals =
    record { request = to_create "t1" wish; fresh = first; clock = clock }
    ∷ record { request = to_get "t1"; fresh = second; clock = clock }
    ∷ []

-- The refused creation has left its event.
one_row : length (serve_all false arrivals empty).session.rows ≡ 1
unfolding serve_all program
one_row = refl

serve_all-IsGapless_example : IsGapless (serve_all false arrivals empty).session.rows
serve_all-IsGapless_example =
    serve_all-IsGapless false count_time-print_time arrivals empty refl (λ id. tt)

-- The created task is in the table, and nothing in the cache.
stored : TaskRepository
unfolding program born
stored = record {
  session = record { rows = rows_of "t1" born.uncommitted; aborted = false };
  cache = [];
}

stored-IsGapless : IsGapless stored.session.rows
unfolding program born stored
stored-IsGapless id = elim (Bool-cases ("t1" == id)) [
  | inl same ↦ simp same (refl, (eq_iff "t1" id).0 same, tt)
  | inr other ↦ simp other tt
]

abbrev same_priority : Command
same_priority = to_change_priority high "ann"

answered : TaskAggregate
unfolding program born stored on_task
answered =
    or_else (new_aggregate "none")
      (on_task clock "t1" (execute false second same_priority) (pos 1) stored).0

on_task-answered :
    (on_task clock "t1" (execute false second same_priority) (pos 1) stored).0 ≡ ok answered
unfolding program born stored on_task answered change_priority
on_task-answered = refl

on_task-idle_example :
    (on_task clock "t1"
      (execute false second same_priority)
      (pos 1)
      (serve_all false [] stored)).1.session
    ≡ (serve_all false [] stored).session
unfolding serve_all stored
on_task-idle_example =
    on_task-idle false count_time-print_time [] stored clock "t1" second same_priority (pos 1)
      answered refl stored-IsGapless on_task-answered
