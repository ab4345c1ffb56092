-- ===== src/Task/Values.antt =====
-- The validated value objects of services/task_service/domain/value_objects.py. A class is a
-- record; calling it, with its `__post_init__`, is a function that may raise.
mod Tests
use taskforge_platform.Common.{
  ℕ, ◌+◌, ◌*◌, Bool, true, false, ◌&&◌, ◌==◌, str_eq, String, not, ◌||◌, Option, none, some, List,
  [], ltb, if◌then◌else◌, str_len, is_empty, str_take, without_char, isspace, isalnum, strip,
  Runtime, Datetime,
}
use Prim.Native.String.{◌++◌}
use taskforge_platform.Common.Dict.{Dict}
use taskforge_platform.Common.Result.{Result, ok, err}
use taskforge_platform.Task.Errors.{text, Error, raise_value}

pub record TaskId : Type 0 where
  pub value : String

pub record UserId : Type 0 where
  pub value : String

-- `TaskId.__eq__` and `UserId.__eq__`, on values of the class.
unfoldable pub task_id_eq : TaskId → TaskId → Bool
task_id_eq a b = a.value == b.value

unfoldable pub user_id_eq : UserId → UserId → Bool
user_id_eq a b = a.value == b.value

pub record Label : Type 0 where
  pub name : String

pub record TaskDescription : Type 0 where
  pub text_of : String

pub record TaskTitle : Type 0 where
  pub text_of : String

module _ ⦃rt : Runtime⦄ where
  unfoldable pub label : String → Result Error Label
  label name =
      if is_empty name || ltb 50 (str_len name)
      then err (raise_value (text "Label name must be between 1 and 50 characters"))
      else if not (isalnum (without_char b'_' (without_char b'-' name)))
      then err (
          raise_value
            (text "Label can only contain alphanumeric characters, hyphens, and underscores"))
      else ok (record { name = name })

  -- `Label.__str__`
  unfoldable pub label_str : Label → String
  label_str l = rt.lower l.name

  unfoldable pub task_title : String → Result Error TaskTitle
  task_title s =
      if is_empty s || ltb (str_len s) 3
      then err (raise_value (text "Title must be at least 3 characters"))
      else if ltb 200 (str_len s)
      then err (raise_value (text "Title cannot exceed 200 characters"))
      else if isspace s
      then err (raise_value (text "Title cannot be only whitespace"))
      else ok (record { text_of = s })

  -- `TaskTitle.__str__`
  unfoldable pub title_str : TaskTitle → String
  title_str t = strip t.text_of

unfoldable pub task_description : String → Result Error TaskDescription
task_description s =
    if ltb 5000 (str_len s)
    then err (raise_value (text "Description cannot exceed 5000 characters"))
    else ok (record { text_of = s })

-- `TaskDescription.excerpt`
unfoldable pub excerpt : TaskDescription → String
excerpt d = if ltb 200 (str_len d.text_of) then str_take 200 d.text_of ++ "..." else d.text_of

pub record DueDate : Type 0 where
  pub date : Option Datetime

-- `DueDate.__str__`
unfoldable pub due_date_str : ⦃rt : Runtime⦄ → DueDate → String
due_date_str ⦃rt⦄ d = elim d.date [ none ↦ "No due date" | some at ↦ rt.isoformat at ]

abbrev utc : ℕ
utc = 1440

-- `DueDate(date)`: a naive date is taken for UTC.
unfoldable pub due_date : Option Datetime → DueDate
due_date none = record { date = none }
due_date (some d) = record {
  date = some (elim d.tzinfo [ none ↦ record d { tzinfo = some utc } | some z ↦ d ]);
}

-- The offset of an aware datetime; a `DueDate` has no naive one.
abbrev offset_of : Datetime → ℕ
offset_of d = elim d.tzinfo [ none ↦ utc | some z ↦ z ]

abbrev minute : ℕ
minute = 60 * 1000000

-- `d < e` of aware datetimes.
unfoldable pub is_before : Datetime → Datetime → Bool
is_before d e = ltb (d.micros + minute * offset_of e) (e.micros + minute * offset_of d)

-- `DueDate.is_overdue` at a time.
unfoldable pub is_overdue : Datetime → DueDate → Bool
unfolding is_before
is_overdue now d = elim d.date [ none ↦ false | some at ↦ is_before at now ]

-- `(e - d).total_seconds() < 86400` of aware datetimes.
abbrev within_a_day : Datetime → Datetime → Bool
within_a_day d e =
    ltb (e.micros + minute * offset_of d) (d.micros + minute * offset_of e + 86400 * 1000000)

-- `DueDate.is_approaching` at a time.
unfoldable pub is_approaching : Datetime → DueDate → Bool
unfolding is_before
is_approaching now d = elim d.date [
  | none ↦ false
  | some at ↦ is_before now at && within_a_day now at
]

pub record TaskMetadata : Type 0 where
  pub source : String
  pub priority_changed_count : ℕ
  pub assignee_changed_count : ℕ
  pub tags : List String
  pub custom_fields : Dict String

-- `TaskMetadata()`
unfoldable pub default_metadata : TaskMetadata
default_metadata = record {
  source = "api";
  priority_changed_count = 0;
  assignee_changed_count = 0;
  tags = [];
  custom_fields = [];
}

unfoldable pub increment_priority_changes : TaskMetadata → TaskMetadata
increment_priority_changes m = record m { priority_changed_count = m.priority_changed_count + 1 }

unfoldable pub increment_assignee_changes : TaskMetadata → TaskMetadata
increment_assignee_changes m = record m { assignee_changed_count = m.assignee_changed_count + 1 }
