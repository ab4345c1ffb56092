-- ===== src/Task/Events/Serial/Reload.antt =====
-- An event written by `to_dict` and read back by `from_dict`.
use taskforge_platform.Common.{
  String, ◌≡◌, refl, Option, none, some, List, [], ◌∷◌, map, Runtime, Datetime,
}
use taskforge_platform.Common.Dict.{Dict, lookup}
use taskforge_platform.Common.Value.{Value, entries-fields, optional, texts_of}
use taskforge_platform.Common.Result.{Result, ok, ◌>>=◌}
use taskforge_platform.Task.Errors.{Error}
use taskforge_platform.Task.Events.{
  Change, texts, text_lists, TaskEventData, created, updated, assigned, status_changed,
  priority_changed, deleted, TaskEvent,
}
use taskforge_platform.Task.Events.Serial.{
  change_value, serialize_data, EventClass, class_of, get_str, as_optional, get_optional,
  get_number, get_dict, get_texts, as_texts, as_change, as_changes, read_data, to_dict, occurred,
  from_dict, created_class, updated_class, assigned_class, status_changed_class,
  priority_changed_class, deleted_class,
}

as_texts-texts_of : (l : List String) → as_texts (texts_of l) ≡ ok l
as_texts-texts_of [] = refl
as_texts-texts_of (s ∷ l) = rw (as_texts-texts_of l) refl

as_change-change_value :
    (c : Change) (k : String) (cs : Dict Value) (r : Result Error (Dict Change))
    → as_changes cs ≡ r
    → as_changes ((k, change_value c) ∷ cs) ≡ (r >>= λ d. ok ((k, c) ∷ d))
unfolding as_changes change_value as_change lookup
as_change-change_value (texts o n) k cs r h = rw h refl
as_change-change_value (text_lists o n) k cs r h =
    rw (as_texts-texts_of o, as_texts-texts_of n, h) refl

as_changes-changes : (d : Dict Change) → as_changes (map (λ p. (p.0, change_value p.1)) d) ≡ ok d
unfolding as_changes
as_changes-changes [] = refl
as_changes-changes ((k, c) ∷ d) = as_change-change_value c k _ (ok d) (as_changes-changes d)

as_optional-optional : (o : Option String) → as_optional (optional o) ≡ ok o
as_optional-optional none = refl
as_optional-optional (some s) = refl

read_data-serialize_data : (b : TaskEventData) → read_data (class_of b) (serialize_data b) ≡ ok b
unfolding read_data serialize_data get_str get_optional get_dict get_texts lookup
read_data-serialize_data (created e) =
    rw
      (
        as_optional-optional e.assignee_id,
        as_texts-texts_of e.labels,
        as_optional-optional e.due_date,
      )
      refl
read_data-serialize_data (updated e) =
    rw
      (
        entries-fields (map (λ p. (p.0, change_value p.1)) e.field_changes),
        as_changes-changes e.field_changes,
      )
      refl
read_data-serialize_data (assigned e) = rw (as_optional-optional e.previous_assignee_id) refl
read_data-serialize_data (status_changed e) = rw (as_optional-optional e.reason) refl
read_data-serialize_data (priority_changed e) = refl
read_data-serialize_data (deleted e) = rw (as_optional-optional e.reason) refl

-- The time that an event of a class carries once it is read back at the time `now`.
abbrev pub reloaded_at : EventClass → Datetime → Datetime → Datetime
reloaded_at created_class now at = at
reloaded_at c now at = now

-- What is left of an event that is written and read back at the time `now`.
abbrev pub reloaded : Datetime → TaskEvent → TaskEvent
reloaded now e = record e {
  occurred_at = reloaded_at (class_of e.body) now e.occurred_at;
  metadata = [];
  user_id = "";
}

module _ ⦃rt : Runtime⦄ (iso : (d : Datetime) → rt.fromisoformat (rt.isoformat d) ≡ some d) where
  occurred-to_dict :
      (c : EventClass) (now : Datetime) (e : TaskEvent)
      → occurred c now (to_dict e) ≡ ok (reloaded_at c now e.occurred_at)
  unfolding occurred to_dict get_str lookup
  occurred-to_dict created_class now e = rw (iso e.occurred_at) refl
  occurred-to_dict updated_class now e = refl
  occurred-to_dict assigned_class now e = refl
  occurred-to_dict status_changed_class now e = refl
  occurred-to_dict priority_changed_class now e = refl
  occurred-to_dict deleted_class now e = refl

  -- If `fromisoformat` reads what `isoformat` writes, an event that is written and read back at
  -- `now` keeps its id, aggregate, version and data and loses metadata and user; it keeps its time
  -- if it is a `task.created`, and is dated `now` otherwise.
  pub from_dict-to_dict :
      (now : Datetime) (e : TaskEvent)
      → from_dict (class_of e.body) now (to_dict e) ≡ ok (reloaded now e)
  unfolding from_dict to_dict get_dict get_str get_number lookup
  from_dict-to_dict now e =
      rw
        (
          occurred-to_dict (class_of e.body) now e,
          entries-fields (serialize_data e.body),
          read_data-serialize_data e.body,
        )
        refl
