-- ===== src/Demo.antt =====
-- src/main.py: the demo program with its own event store and aggregate. Its TaskStatus and
-- TaskPriority have the members and the texts of those of the task service. An id and a time that
-- an event draws play no part and are left out.
pub mod Numbers
pub mod Writers
mod Tests
use taskforge_platform.Common.{
  ℕ, ◌+◌, Bool, true, false, not, String, Option, none, some, List, [], ◌∷◌, ◌++◌, map, length,
  nat_beq, ◌==◌, str_eq, if◌then◌else◌,
}
use taskforge_platform.Common.Dict.{Dict, lookup, get_or, insert}
use taskforge_platform.Common.Result.{⊤, Result, ok, err}
use taskforge_platform.Common.Method.{Method, ◌>>=◌, ◌>>◌, pure}
use taskforge_platform.Task.Status.{
  TaskStatus, backlog, todo, in_progress, in_review, done, archived, value, parse, is_member,
  status_eq,
}
use taskforge_platform.Task.Status.Priority.{TaskPriority, medium}
use taskforge_platform.Task.Status.Priority

pub data ValueError : Type 0 where
  bad_priority : String → ValueError  -- TaskPriority(text)
  bad_status : String → ValueError  -- TaskStatus(text)
  bad_transition : TaskStatus → TaskStatus → ValueError
  version_conflict : ℕ → ℕ → ValueError  -- expected, current

-- `valid.get(self, set())`
unfoldable pub valid : TaskStatus → List TaskStatus
valid backlog = todo ∷ archived ∷ []
valid todo = in_progress ∷ backlog ∷ []
valid in_progress = in_review ∷ done ∷ todo ∷ []
valid in_review = done ∷ in_progress ∷ todo ∷ []
valid done = archived ∷ todo ∷ []
valid archived = backlog ∷ []

unfoldable pub can_transition_to : TaskStatus → TaskStatus → Bool
unfolding valid is_member
can_transition_to s target = is_member target (valid s)

-- The `event_type` of an event with its `data`.
pub data EventData : Type 0 where
  created : String → String → EventData  -- title, priority
  assigned : Option String → EventData
  status_changed : TaskStatus → EventData

unfoldable pub event_type : EventData → String
event_type (created t p) = "task.created"
event_type (assigned n) = "task.assigned"
event_type (status_changed s) = "task.status_changed"

pub record DomainEvent : Type 0 where
  pub aggregate_id : String
  pub version : ℕ
  pub body : EventData

-- `self._events`
abbrev pub EventStore : Type 0
EventStore = Dict (List DomainEvent)

-- `save_events`
unfoldable pub save_events : String → List DomainEvent → ℕ → Method EventStore ValueError ⊤
unfolding get_or insert
save_events id events expected_version store =
    let stored = get_or id [] store in
    if not (nat_beq (length stored) expected_version)
    then (err (version_conflict expected_version (length stored)), store)
    else (ok tt, insert id (stored ++ events) store)

pub record TaskAggregate : Type 0 where
  pub aggregate_id : String
  pub title : String
  pub priority : TaskPriority
  pub status : TaskStatus
  pub assignee_id : Option String
  pub version : ℕ
  pub uncommitted : List DomainEvent

-- `TaskAggregate(aggregate_id)`
unfoldable pub new_aggregate : String → TaskAggregate
new_aggregate id = record {
  aggregate_id = id;
  title = "";
  priority = medium;
  status = backlog;
  assignee_id = none;
  version = 0;
  uncommitted = [];
}

-- `_apply` of a creation behind `TaskPriority(…)`, with the title already assigned.
abbrev with_priority : String → ℕ → Option TaskPriority → Method TaskAggregate ValueError ⊤
with_priority text v none a = (err (bad_priority text), a)
with_priority text v (some p) a = (ok tt, record a { priority = p; version = v })

-- `_apply`
unfoldable pub apply_event : DomainEvent → Method TaskAggregate ValueError ⊤
unfolding Priority.parse
apply_event e a = elim e.body [
  | created title priority ↦
      with_priority priority e.version (Priority.parse priority) (record a { title = title })
  | assigned new ↦ (ok tt, record a { assignee_id = new; version = e.version })
  | status_changed s ↦ (ok tt, record a { status = s; version = e.version })
]

-- `e = DomainEvent(…); self._apply(e); self._uncommitted.append(e)`
unfoldable pub raise_event : EventData → Method TaskAggregate ValueError ⊤
unfolding apply_event
raise_event d a =
    let e : DomainEvent = record {
      aggregate_id = a.aggregate_id;
      version = a.version + 1;
      body = d;
    } in
    let (r, b) = apply_event e a in
    (
      r,
      elim r as (λ _. TaskAggregate) [
        | ok _ ↦ record b { uncommitted = b.uncommitted ++ e ∷ [] }
        | err x ↦ b
      ],
    )

-- `create`; it reads neither the description nor the creator.
unfoldable pub create : String → String → Method TaskAggregate ValueError ⊤
unfolding raise_event
create title priority = raise_event (created title priority)

abbrev same_assignee : Option String → Option String → Bool
same_assignee none none = true
same_assignee (some a) (some b) = a == b
same_assignee x y = false

unfoldable pub assign : Option String → Method TaskAggregate ValueError ⊤
unfolding raise_event
assign new a = if same_assignee a.assignee_id new then (ok tt, a) else raise_event (assigned new) a

-- `change_status` behind `TaskStatus(new_status)`.
unfoldable pub change_to : String → Option TaskStatus → Method TaskAggregate ValueError ⊤
unfolding raise_event can_transition_to
change_to text none a = (err (bad_status text), a)
change_to text (some target) a =
    if can_transition_to a.status target
    then raise_event (status_changed target) a
    else (err (bad_transition a.status target), a)

unfoldable pub change_status : String → Method TaskAggregate ValueError ⊤
unfolding change_to parse
change_status text = change_to text (parse text)

unfoldable pub get_uncommitted : TaskAggregate → List DomainEvent
get_uncommitted a = a.uncommitted

unfoldable pub mark_committed : TaskAggregate → TaskAggregate
mark_committed a = record a { uncommitted = [] }

-- What `demo` prints of its first task.
pub record Report : Type 0 where
  pub title : String
  pub status : String
  pub priority : String
  pub assignee_id : Option String
  pub version : ℕ
  pub events : List (ℕ × String)

abbrev report : TaskAggregate → List DomainEvent → Report
unfolding value Priority.value event_type
report task events = record {
  title = task.title;
  status = value task.status;
  priority = Priority.value task.priority;
  assignee_id = task.assignee_id;
  version = task.version;
  events = map (λ e. (e.version, event_type e.body)) events;
}

-- A method called on a task beside the store.
abbrev called :
    Method TaskAggregate ValueError ⊤ → TaskAggregate → Method EventStore ValueError TaskAggregate
called m a store = let (r, b) = m a in (elim r [ ok _ ↦ ok b | err x ↦ err x ], store)

-- `try: … except ValueError as e`
abbrev caught : Method EventStore ValueError ⊤ → Method EventStore ValueError (Option ValueError)
caught m store = let (r, s) = m store in (ok (elim r [ ok _ ↦ none | err x ↦ some x ]), s)

-- The first part of `demo`, with the id of its task.
unfoldable pub demo_1 : String → Method EventStore ValueError Report
unfolding new_aggregate create assign change_status get_uncommitted save_events mark_committed
    report
demo_1 tid = do
  task ←
      called
        (create "Implement OAuth2" "high"
          >> assign (some "bob")
          >> change_status "todo"
          >> change_status "in_progress"
          >> change_status "in_review")
        (new_aggregate tid)
  save_events tid (get_uncommitted task) 0
  pure (report (mark_committed task) (get_uncommitted task))

-- The second part: what the last `save_events` raises.
unfoldable pub demo_2 : String → Method EventStore ValueError (Option ValueError)
unfolding new_aggregate create change_status get_uncommitted save_events mark_committed
demo_2 cid = do
  a ← called (create "Setup CI/CD" "medium") (new_aggregate cid)
  save_events cid (get_uncommitted a) 0
  a' ← called (change_status "todo") (mark_committed a)
  save_events cid (get_uncommitted a') 1
  b ← called (create "Setup CI/CD" "medium") (new_aggregate cid)
  b' ← called (change_status "todo") (record b { version = 1 })
  caught (save_events cid (get_uncommitted b') 1)
