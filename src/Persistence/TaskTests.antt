-- ===== src/Persistence/TaskTests.antt =====
-- One created task, saved to an empty table and loaded again, and the theorems about that.
use taskforge_platform.Common.{
  ℕ, arith, ◌≤◌, ◌≡◌, refl, false, none, some, List, [], length, All, Datetime,
}
use taskforge_platform.Common.Dict.{lookup}
use taskforge_platform.Common.Result.{Result, ok, err}
use taskforge_platform.EventSourcing.{replay}
use taskforge_platform.Task.Errors.{Error}
use taskforge_platform.Task.Aggregate.{TaskAggregate, new_aggregate}
use taskforge_platform.Task.Aggregate.Methods.{from_events}
use taskforge_platform.Task.Aggregate.Methods.Reloaded.{SameTask}
use taskforge_platform.Task.Aggregate.Methods.Sourced.{committed, create-IsSourced}
use taskforge_platform.Task.Tests.{
  ascii, first, request, program, born, create-born, count_time-print_time,
}
use taskforge_platform.Persistence.Reads.{get_events}
use taskforge_platform.Persistence.Reads.Streams.{stream, reload, get_events-stream}
use taskforge_platform.Persistence.Repository.{save}
use taskforge_platform.Persistence.Tasks.{TaskRepository, get_by_id, list_tasks}
use taskforge_platform.Persistence.Tasks.Loads.{SameLoad, get_by_id_loads, get_by_id-save}
use taskforge_platform.Persistence.Tasks.Listing.{Passes, list_tasks-Passes}

abbrev empty : TaskRepository
empty = record { session = record { rows = []; aborted = false }; cache = [] }

abbrev clock : ℕ → Datetime
clock n = record { micros = n; tzinfo = none }

filled : TaskRepository
unfolding program born save
filled = (save born none empty).1

save-filled : save born none empty ≡ (ok tt, filled)
unfolding program born save filled
save-filled = refl

fresh_reader : TaskRepository
unfolding filled
fresh_reader = record filled { cache = [] }

get_events-stream_example :
    get_events clock "t1" 0 filled.session
    ≡ (ok (reload count_time-print_time clock 0 (stream "t1" filled.session.rows)), filled.session)
unfolding program born save filled
get_events-stream_example =
    get_events-stream count_time-print_time clock "t1" filled.session refl (refl, refl, tt)

get_by_id_loads_example :
    SameLoad count_time-print_time clock
      (from_events (stream "t1" filled.session.rows))
      (get_by_id clock "t1" fresh_reader).0
unfolding program born save filled fresh_reader lookup
get_by_id_loads_example =
    get_by_id_loads count_time-print_time clock "t1" fresh_reader refl refl (λ e. cc)
      (refl, refl, tt)

get_by_id-save_example :
    (b : TaskAggregate) × ((get_by_id clock "t1" (record filled { cache = [] })).0 ≡ ok (some b))
    × SameTask b (committed born)
unfolding program born replay new_aggregate
get_by_id-save_example =
    get_by_id-save count_time-print_time clock "t1" (new_aggregate "t1") born empty filled tt refl
      (create-IsSourced false first "t1" request born create-born) (λ e. cc) refl save-filled

abbrev or_none : Result Error (List TaskAggregate) → List TaskAggregate
or_none (ok l) = l
or_none (err x) = []

listed : List TaskAggregate
unfolding program born save filled list_tasks
listed = or_none (list_tasks (λ n. n) clock (some "backlog") none 5 0 filled).0

list_tasks-Passes_example : All (Passes (some "backlog") none) listed × (length listed ≤ 5)
unfolding program born save filled list_tasks listed
list_tasks-Passes_example =
    list_tasks-Passes (some "backlog") none (λ n. n) clock 5 5 0 filled filled listed (omega arith)
      (omega arith) refl
