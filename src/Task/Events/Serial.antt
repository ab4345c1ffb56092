-- ===== src/Task/Events/Serial.antt =====
-- `DomainEvent.to_dict` of libs/common/event_bus.py, and `_serialize_data` and `from_dict` of the
-- event classes of services/task_service/domain/events.py. `json` writes and reads these dicts of
-- texts, numbers, lists and dicts without loss. `from_dict` checks no types: on a dict that holds
-- a value of another type than `to_dict` writes, the result here is `ill_typed`, where the source
-- builds an event whose field has that other type.
pub mod Reload
use taskforge_platform.Common.{ℕ, String, Option, none, some, List, [], ◌∷◌, map, Runtime, Datetime}
use taskforge_platform.Common.Dict.{Dict, lookup}
use taskforge_platform.Common.Value.{
  Value, null, number, str, items, dict, Values, nil, cons, entries, object, optional, texts_of,
}
use taskforge_platform.Common.Result.{Result, ok, err, ◌>>=◌, ◌>>◌, traverse}
use taskforge_platform.EventSourcing.{DomainEvent}
use taskforge_platform.Task.Errors.{Error, ill_typed, raise_value, not_iso}
use taskforge_platform.Task.Events.{
  Change, texts, text_lists, TaskCreated, TaskUpdated, TaskAssigned, TaskStatusChanged,
  TaskPriorityChanged, TaskDeleted, TaskEventData, created, updated, assigned, status_changed,
  priority_changed, deleted, TaskEvent, event_type,
}

unfoldable pub change_value : Change → Value
change_value (texts old new_value) = object (("old", str old) ∷ ("new", str new_value) ∷ [])
change_value (text_lists old new_value) =
    object (("old", items (texts_of old)) ∷ ("new", items (texts_of new_value)) ∷ [])

-- `_serialize_data` of the six classes.
unfoldable pub serialize_data : TaskEventData → Dict Value
unfolding change_value
serialize_data (created e) =
    ("title", str e.title)
    ∷ ("description", str e.description)
    ∷ ("priority", str e.priority)
    ∷ ("assignee_id", optional e.assignee_id)
    ∷ ("created_by", str e.created_by)
    ∷ ("labels", items (texts_of e.labels))
    ∷ ("due_date", optional e.due_date)
    ∷ []
serialize_data (updated e) =
    ("field_changes", object (map (λ p. (p.0, change_value p.1)) e.field_changes))
    ∷ ("updated_by", str e.updated_by)
    ∷ []
serialize_data (assigned e) =
    ("previous_assignee_id", optional e.previous_assignee_id)
    ∷ ("new_assignee_id", str e.new_assignee_id)
    ∷ ("assigned_by", str e.assigned_by)
    ∷ []
serialize_data (status_changed e) =
    ("previous_status", str e.previous_status)
    ∷ ("new_status", str e.new_status)
    ∷ ("changed_by", str e.changed_by)
    ∷ ("reason", optional e.reason)
    ∷ []
serialize_data (priority_changed e) =
    ("previous_priority", str e.previous_priority)
    ∷ ("new_priority", str e.new_priority)
    ∷ ("changed_by", str e.changed_by)
    ∷ []
serialize_data (deleted e) = ("deleted_by", str e.deleted_by) ∷ ("reason", optional e.reason) ∷ []

-- The six event classes.
pub data EventClass : Type 0 where
  created_class updated_class assigned_class : EventClass
  status_changed_class priority_changed_class deleted_class : EventClass

abbrev pub class_of : TaskEventData → EventClass
class_of (created e) = created_class
class_of (updated e) = updated_class
class_of (assigned e) = assigned_class
class_of (status_changed e) = status_changed_class
class_of (priority_changed e) = priority_changed_class
class_of (deleted e) = deleted_class

-- `d.get(k, default)` where a text is expected.
unfoldable pub get_str : String → String → Dict Value → Result Error String
unfolding lookup
get_str k default d = elim (lookup k d) [
  | none ↦ ok default
  | some v ↦ elim v [ str s ↦ ok s | _ ↦ err ill_typed ]
]

abbrev pub as_optional : Value → Result Error (Option String)
as_optional null = ok none
as_optional (str s) = ok (some s)
as_optional v = err ill_typed

-- `d.get(k)` where a text or None is expected.
unfoldable pub get_optional : String → Dict Value → Result Error (Option String)
unfolding lookup
get_optional k d = elim (lookup k d) [ none ↦ ok none | some v ↦ as_optional v ]

unfoldable pub get_number : String → Dict Value → Result Error ℕ
unfolding lookup
get_number k d = elim (lookup k d) [
  | none ↦ ok 0
  | some v ↦ elim v [ number n ↦ ok n | _ ↦ err ill_typed ]
]

unfoldable pub get_dict : String → Dict Value → Result Error (Dict Value)
unfolding lookup
get_dict k d = elim (lookup k d) [
  | none ↦ ok []
  | some v ↦ elim v [ dict fs ↦ ok (entries fs) | _ ↦ err ill_typed ]
]

abbrev pub as_texts : Values → Result Error (List String)
as_texts nil = ok []
as_texts (cons (str s) vs) = as_texts vs >>= λ l. ok (s ∷ l)
as_texts (cons v vs) = err ill_typed

unfoldable pub get_texts : String → Dict Value → Result Error (List String)
unfolding lookup
get_texts k d = elim (lookup k d) [
  | none ↦ ok []
  | some v ↦ elim v [ items vs ↦ as_texts vs | _ ↦ err ill_typed ]
]

-- The value of one key of `field_changes`, in the two forms that the aggregate writes.
abbrev pub as_change_of : Option Value → Option Value → Result Error Change
as_change_of (some (str old)) (some (str new_value)) = ok (texts old new_value)
as_change_of (some (items old)) (some (items new_value)) =
    as_texts old >>= λ o. as_texts new_value >>= λ n. ok (text_lists o n)
as_change_of old new_value = err ill_typed

unfoldable pub as_change : Dict Value → Result Error Change
unfolding lookup
as_change d = as_change_of (lookup "old" d) (lookup "new" d)

unfoldable pub as_changes : Dict Value → Result Error (Dict Change)
unfolding as_change
as_changes [] = ok []
as_changes ((k, dict fs) ∷ d) =
    as_change (entries fs) >>= λ c. as_changes d >>= λ cs. ok ((k, c) ∷ cs)
as_changes ((k, v) ∷ d) = err ill_typed

-- The fields of the class, from the dict under `data`.
unfoldable pub read_data : EventClass → Dict Value → Result Error TaskEventData
unfolding get_str get_optional get_dict get_texts as_changes
read_data created_class d = do
  title ← get_str "title" "" d
  description ← get_str "description" "" d
  priority ← get_str "priority" "medium" d
  assignee_id ← get_optional "assignee_id" d
  created_by ← get_str "created_by" "" d
  labels ← get_texts "labels" d
  due_date ← get_optional "due_date" d
  ok (
      created (record {
        title = title;
        description = description;
        priority = priority;
        assignee_id = assignee_id;
        created_by = created_by;
        labels = labels;
        due_date = due_date;
      }))
read_data updated_class d = do
  changes ← get_dict "field_changes" d
  field_changes ← as_changes changes
  updated_by ← get_str "updated_by" "" d
  ok (updated (record { field_changes = field_changes; updated_by = updated_by }))
read_data assigned_class d = do
  previous ← get_optional "previous_assignee_id" d
  new_assignee ← get_str "new_assignee_id" "" d
  assigned_by ← get_str "assigned_by" "" d
  ok (
      assigned (record {
        previous_assignee_id = previous;
        new_assignee_id = new_assignee;
        assigned_by = assigned_by;
      }))
read_data status_changed_class d = do
  previous ← get_str "previous_status" "" d
  new_status ← get_str "new_status" "" d
  changed_by ← get_str "changed_by" "" d
  reason ← get_optional "reason" d
  ok (
      status_changed (record {
        previous_status = previous;
        new_status = new_status;
        changed_by = changed_by;
        reason = reason;
      }))
read_data priority_changed_class d = do
  previous ← get_str "previous_priority" "" d
  new_priority ← get_str "new_priority" "" d
  changed_by ← get_str "changed_by" "" d
  ok (
      priority_changed (record {
        previous_priority = previous;
        new_priority = new_priority;
        changed_by = changed_by;
      }))
read_data deleted_class d = do
  deleted_by ← get_str "deleted_by" "" d
  reason ← get_optional "reason" d
  ok (deleted (record { deleted_by = deleted_by; reason = reason }))

module _ ⦃rt : Runtime⦄ where
  -- `to_dict`
  unfoldable pub to_dict : TaskEvent → Dict Value
  unfolding serialize_data event_type
  to_dict e =
      ("event_id", str e.event_id)
      ∷ ("aggregate_id", str e.aggregate_id)
      ∷ ("event_type", str (event_type e.body))
      ∷ ("version", number e.version)
      ∷ ("occurred_at", str (rt.isoformat e.occurred_at))
      ∷ ("metadata", object (map (λ p. (p.0, str p.1)) e.metadata))
      ∷ ("user_id", str e.user_id)
      ∷ ("data", object (serialize_data e.body))
      ∷ []

  -- `occurred_at` of the new event: only `TaskCreatedEvent.from_dict` reads it from the dict, the
  -- others leave it to the default, the time `now`.
  unfoldable pub occurred : EventClass → Datetime → Dict Value → Result Error Datetime
  unfolding get_str
  occurred created_class now d = do
    s ← get_str "occurred_at" (rt.isoformat now) d
    elim (rt.fromisoformat s) [ none ↦ err (raise_value (not_iso s)) | some at ↦ ok at ]
  occurred c now d = ok now

  -- `from_dict`
  unfoldable pub from_dict : EventClass → Datetime → Dict Value → Result Error TaskEvent
  unfolding get_str get_number get_dict occurred read_data
  from_dict c now d = do
    inner ← get_dict "data" d
    event_id ← get_str "event_id" "" d
    aggregate_id ← get_str "aggregate_id" "" d
    version ← get_number "version" d
    at ← occurred c now d
    body ← read_data c inner
    ok (record {
      event_id = event_id;
      aggregate_id = aggregate_id;
      version = version;
      occurred_at = at;
      metadata = [];
      user_id = "";
      body = body;
    })
