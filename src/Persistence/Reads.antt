-- ===== src/Persistence/Reads.antt =====
-- The reading half of services/task_service/infrastructure/event_store.py, with the registry of
-- services/task_service/main.py: `get_events`, `get_all_events` and `_deserialize_event`. `clock n`
-- is the time at which the n-th row of a query is read back, and `row_id n` the value of the column
-- `id` of the n-th row of the table.
pub mod Streams
use taskforge_platform.Common.{
  ℕ, ◌+◌, Bool, ◌&&◌, String, Option, none, some, List, [], ◌∷◌, ltb, ◌==◌, str_eq, take,
  if◌then◌else◌, Runtime, Datetime,
}
use taskforge_platform.Common.Result.{Result, ok, err}
use taskforge_platform.Common.Method.{Method}
use taskforge_platform.EventSourcing.{DomainEvent, sort_by_version}
use taskforge_platform.Task.Errors.{Error, aborted_transaction}
use taskforge_platform.Task.Events.{TaskEventData, TaskEvent, event_type}
use taskforge_platform.Task.Events.Serial.{
  EventClass, created_class, updated_class, assigned_class, status_changed_class,
  priority_changed_class, deleted_class, to_dict, from_dict,
}
use taskforge_platform.Persistence.Store.{Row, Session}

-- `EVENT_REGISTRY.get(event_type)`
unfoldable pub registry : String → Option EventClass
registry t =
    if t == "task.created"
    then some created_class
    else if t == "task.updated"
    then some updated_class
    else if t == "task.assigned"
    then some assigned_class
    else if t == "task.status_changed"
    then some status_changed_class
    else if t == "task.priority_changed"
    then some priority_changed_class
    else if t == "task.deleted"
    then some deleted_class
    else none

-- What a query that answers rows does in a transaction that has failed, and otherwise.
abbrev pub query :
    {A : Type 0} → (List (Row TaskEventData) → A) → Method (Session TaskEventData) Error A
query q s = if s.aborted then (err aborted_transaction, s) else (ok (q s.rows), s)

-- `WHERE aggregate_id = :aggregate_id AND version > :from_version`
unfoldable pub select_events : String → ℕ → List (Row TaskEventData) → List TaskEvent
select_events id from [] = []
select_events id from (r ∷ rs) =
    let rest = select_events id from rs in
    if (r.stored_under == id) && ltb from r.event.version then r.event ∷ rest else rest

-- `WHERE id > :from_event_id ORDER BY id ASC`, from the row at position `n` on.
unfoldable pub select_after : (ℕ → ℕ) → ℕ → ℕ → List (Row TaskEventData) → List TaskEvent
select_after row_id from n [] = []
select_after row_id from n (r ∷ rs) =
    let rest = select_after row_id from (n + 1) rs in
    if ltb from (row_id n) then r.event ∷ rest else rest

-- The result of the `try` statement: an exception is logged and gives None.
abbrev pub ok_or_none : Result Error TaskEvent → Option TaskEvent
ok_or_none (ok e) = some e
ok_or_none (err x) = none

-- `if event: events.append(event)`, in front of what the rest of the rows gives.
abbrev pub keep : Option TaskEvent → List TaskEvent → List TaskEvent
keep none rest = rest
keep (some e) rest = e ∷ rest

module _ ⦃rt : Runtime⦄ where
  -- `_deserialize_event` behind the lookup of the class.
  unfoldable pub deserialize_as : Option EventClass → Datetime → TaskEvent → Option TaskEvent
  unfolding from_dict to_dict
  deserialize_as none now e = none
  deserialize_as (some c) now e = ok_or_none (from_dict c now (to_dict e))

  -- `_deserialize_event` on the columns that `_insert_event` filled from the event.
  unfoldable pub deserialize_event : Datetime → TaskEvent → Option TaskEvent
  unfolding registry deserialize_as event_type
  deserialize_event now e = deserialize_as (registry (event_type e.body)) now e

  module _ (clock : ℕ → Datetime) where
    -- The loop over the rows of a query.
    unfoldable pub deserialize_all : ℕ → List TaskEvent → List TaskEvent
    unfolding deserialize_event
    deserialize_all n [] = []
    deserialize_all n (e ∷ es) = keep (deserialize_event (clock n) e) (deserialize_all (n + 1) es)

    unfoldable pub get_events : String → ℕ → Method (Session TaskEventData) Error (List TaskEvent)
    unfolding deserialize_all sort_by_version select_events
    get_events id from =
        query (λ rows. deserialize_all 0 (sort_by_version (select_events id from rows)))

    unfoldable pub get_all_events :
        (ℕ → ℕ) → ℕ → ℕ → Method (Session TaskEventData) Error (List TaskEvent)
    unfolding deserialize_all select_after
    get_all_events row_id from limit =
        query (λ rows. deserialize_all 0 (take limit (select_after row_id from 0 rows)))
