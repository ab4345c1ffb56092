-- ===== src/Task/Tests.antt =====
-- The task aggregate on small inputs, and the theorems about it at those inputs.
use Prim.Native.Char.{Char, code}
use Prim.Native.String.{String}
use taskforge_platform.Common.{
  ℕ, zero, suc, Option, if◌then◌else◌, ap, true, false, ◌&&◌, none, some, ◌≡◌, refl, ◌⊎◌, [], ◌∷◌,
  ◌++◌, leb, nat_beq, Runtime, Datetime,
}
use taskforge_platform.Common.Result.{Result, ok, err, traverse}
use taskforge_platform.EventSourcing.{replay, events_frozen}
use taskforge_platform.EventSourcing.Replay.{IsSourced, IsSourced-refl}
use taskforge_platform.Task.Errors.{Error, cannot_transition, raise_value}
use taskforge_platform.Task.Status.{TaskStatus, backlog, todo, can_transition_to, parse-value_iff}
use taskforge_platform.Task.Status
use taskforge_platform.Task.Status.Graph.{Reaches, Reaches-all}
use taskforge_platform.Task.Status.Priority
use taskforge_platform.Task.Values.{
  task_title, task_description, label, title_str, due_date, increment_priority_changes,
  increment_assignee_changes,
}
use taskforge_platform.Task.Commands.{CreateTaskCommand}
use taskforge_platform.Task.Events.{TaskEvent, status_changed}
use taskforge_platform.Task.Events.Serial.{status_changed_class, to_dict, from_dict}
use taskforge_platform.Task.Events.Serial.Reload.{reloaded, from_dict-to_dict}
use taskforge_platform.Task.Aggregate.Methods.Reloaded.{nil, cons, SameEnd, from_events-SameEnd}
use taskforge_platform.Task.Aggregate.{TaskAggregate, new_aggregate, apply_event}
use taskforge_platform.Task.Aggregate.Methods.{Fresh, create, change_status, from_events}
use taskforge_platform.Task.Aggregate.Methods.Commands.{Command, to_change_status, execute}
use taskforge_platform.Task.Aggregate.Methods.Sourced.{
  committed, execute-IsSourced, create-IsSourced, from_events-history, execute_frozen,
}
use taskforge_platform.Task.Aggregate.Methods.Safety.{
  execute_deleted, change_status_same, execute-Moved,
}

abbrev pub noon : Datetime
noon = record { micros = 5; tzinfo = none }

-- A printer of times that loses nothing, and its parser: a bar for each microsecond, and for a zone
-- a plus and a plus for each minute.
abbrev times : Char → ℕ → String → String
times c zero s = s
times c (suc n) s = String.◌∷◌ c (times c n s)

abbrev print_zone : Option ℕ → String
print_zone none = ""
print_zone (some k) = String.◌∷◌ "+" (times "+" k "")

abbrev more_zone : Option ℕ → Option ℕ
more_zone none = some 0
more_zone (some k) = some (suc k)

abbrev count_zone : String → Option ℕ
count_zone String.[] = none
count_zone (String.◌∷◌ c s) = more_zone (count_zone s)

abbrev count_time : String → Datetime
count_time String.[] = record { micros = 0; tzinfo = none }
count_time (String.◌∷◌ c s) =
    let rest = count_time s in
    if nat_beq (code c) b'|'
    then record rest { micros = suc rest.micros }
    else record { micros = 0; tzinfo = count_zone (String.◌∷◌ c s) }

abbrev print_time : Datetime → String
print_time d = times "|" d.micros (print_zone d.tzinfo)

count_zone-times : (k : ℕ) → count_zone (String.◌∷◌ "+" (times "+" k "")) ≡ some k
count_zone-times zero = refl
count_zone-times (suc k) = ap more_zone (count_zone-times k)

count_time-print_zone :
    (z : Option ℕ) → count_time (print_zone z) ≡ record { micros = 0; tzinfo = z }
count_time-print_zone none = refl
count_time-print_zone (some k) =
    ap (λ z. let d : Datetime = record { micros = 0; tzinfo = z } in d) (count_zone-times k)

count_time-times :
    (n : ℕ) (z : Option ℕ)
    → count_time (times "|" n (print_zone z)) ≡ record { micros = n; tzinfo = z }
count_time-times zero z = count_time-print_zone z
count_time-times (suc n) z =
    ap (λ (d : Datetime). record d { micros = suc d.micros }) (count_time-times n z)

pub count_time-print_time : (d : Datetime) → some (count_time (print_time d)) ≡ some d
count_time-print_time d = ap some (count_time-times d.micros d.tzinfo)

-- A small character table, and that printer.
instance abbrev pub ascii : Runtime
ascii = record {
  is_space = λ c. nat_beq (code c) b' ';
  is_alnum = λ c. leb b'a' (code c) && leb (code c) b'z';
  lower = λ s. s;
  isoformat = print_time;
  fromisoformat = λ s. some (count_time s);
}

abbrev pub first : Fresh
first = record { event_id = "e1"; now = noon }

abbrev pub second : Fresh
second = record { event_id = "e2"; now = noon }

abbrev pub request : CreateTaskCommand
request = record {
  title = "write tests";
  description = "";
  priority = "high";
  assignee_id = none;
  created_by = "ann";
  labels = "qa" ∷ [];
  due_date = none;
}

abbrev pub or_else : TaskAggregate → Result Error TaskAggregate → TaskAggregate
or_else d (ok a) = a
or_else d (err x) = d

unfoldable pub program : Unit {0}
unfolding create execute change_status new_aggregate task_title task_description label title_str
    traverse due_date Priority.parse Status.parse replay events_frozen increment_priority_changes
    increment_assignee_changes
program = tt

unfoldable pub born : TaskAggregate
unfolding program
born = or_else (new_aggregate "none") (create false first "t1" request)

pub create-born : create false first "t1" request ≡ ok born
unfolding program born
create-born = refl

abbrev pub to_todo : Command
to_todo = to_change_status todo "ann" none

moved : TaskAggregate
unfolding program born
moved = (execute false second to_todo born).1

execute-moved : execute false second to_todo born ≡ (ok tt, moved)
unfolding program moved
execute-moved = refl

create-IsSourced_example : IsSourced apply_event (new_aggregate "t1") born
create-IsSourced_example = create-IsSourced false first "t1" request born create-born

execute-IsSourced_example : IsSourced apply_event (new_aggregate "t1") moved
execute-IsSourced_example =
    execute-IsSourced false second to_todo (new_aggregate "t1") born moved
      (create-IsSourced false first "t1" request born create-born) execute-moved

-- The task read back from its first event, as a start for the second.
abbrev pub loaded : TaskAggregate
loaded = committed born

unfoldable pub moved_again : TaskAggregate
unfolding program born
moved_again = (execute false second to_todo loaded).1

loaded-IsSourced : IsSourced apply_event loaded moved_again
unfolding program moved_again
loaded-IsSourced =
    execute-IsSourced false second to_todo loaded loaded moved_again
      (IsSourced-refl apply_event loaded refl) refl

from_events-history_example :
    from_events (born.uncommitted ++ moved_again.uncommitted) ≡ ok (committed moved_again)
unfolding program born moved_again
from_events-history_example =
    from_events-history "t1" born.uncommitted loaded moved_again (refl, refl, tt) refl
      loaded-IsSourced (λ e. cc)

execute_frozen_example : (execute true second to_todo born).1 ≡ born
unfolding events_frozen
execute_frozen_example = execute_frozen second to_todo born

execute-Moved_example :
    (moved.state.status ≡ born.state.status)
    ⊎ (can_transition_to born.state.status moved.state.status ≡ true)
execute-Moved_example = execute-Moved false second to_todo born moved execute-moved

change_status_same_example :
    change_status false second born.state.status "ann" none born
    ≡ (err (raise_value (cannot_transition born.state.status born.state.status)), born)
unfolding program born
change_status_same_example = change_status_same false second born "ann" none refl

abbrev gone : TaskAggregate
gone = record born { state = record (born.state) { is_deleted = true } }

execute_deleted_example : (x : Error) × (execute false second to_todo gone ≡ (err x, gone))
execute_deleted_example = execute_deleted false second to_todo gone refl

Reaches-all_example : Reaches todo backlog × (can_transition_to todo todo ≡ false)
Reaches-all_example = Reaches-all todo backlog

abbrev closed : TaskEvent
closed = record {
  event_id = "e1";
  aggregate_id = "t1";
  version = 1;
  occurred_at = record { micros = 3; tzinfo = some 2 };
  metadata = ("trace", "7") ∷ [];
  user_id = "ann";
  body = status_changed (record {
    previous_status = "todo";
    new_status = "done";
    changed_by = "ann";
    reason = some "merged";
  });
}

from_dict-to_dict_example :
    from_dict status_changed_class noon (to_dict closed) ≡ ok (reloaded noon closed)
from_dict-to_dict_example = from_dict-to_dict count_time-print_time noon closed

from_events-SameEnd_example :
    SameEnd (from_events (closed ∷ [])) (from_events (reloaded noon closed ∷ []))
from_events-SameEnd_example = from_events-SameEnd (cons refl refl refl nil)
