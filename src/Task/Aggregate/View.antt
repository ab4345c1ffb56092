-- ===== src/Task/Aggregate/View.antt =====
-- `TaskAggregate.to_dict` of services/task_service/domain/aggregates.py.
use taskforge_platform.Common.{String, Option, none, some, [], ◌∷◌, map, Runtime, Datetime}
use taskforge_platform.Common.Dict.{Dict}
use taskforge_platform.Common.Value.{Value, null, truth, number, str, items, optional, texts_of}
use taskforge_platform.Task.Status
use taskforge_platform.Task.Status.Priority
use taskforge_platform.Task.Values.{UserId, label_str, title_str, due_date_str}
use taskforge_platform.Task.Aggregate.{TaskAggregate}

-- `str(user) if user else None`; a `UserId` is always true.
abbrev user_or_none : Option UserId → Option String
user_or_none none = none
user_or_none (some u) = some u.value

module _ ⦃rt : Runtime⦄ where
  -- `at.isoformat() if at else None`
  abbrev time_or_none : Option Datetime → Option String
  time_or_none none = none
  time_or_none (some at) = some (rt.isoformat at)

  unfoldable pub to_dict : TaskAggregate → Dict Value
  unfolding title_str label_str due_date_str Status.value Priority.value
  to_dict a =
      let t = a.state in
      ("id", str a.aggregate_id)
      ∷ ("title", str (title_str t.title))
      ∷ ("description", str t.description.text_of)
      ∷ ("priority", str (Priority.value t.priority))
      ∷ ("status", str (Status.value t.status))
      ∷ ("assignee_id", optional (user_or_none t.assignee_id))
      ∷ ("created_by", optional (user_or_none t.created_by))
      ∷ ("labels", items (texts_of (map label_str t.labels)))
      ∷ ("due_date", elim t.due.date [ none ↦ null | some at ↦ str (due_date_str t.due) ])
      ∷ ("created_at", optional (time_or_none t.created_at))
      ∷ ("updated_at", optional (time_or_none t.updated_at))
      ∷ ("is_deleted", truth t.is_deleted)
      ∷ ("version", number a.version)
      ∷ []
