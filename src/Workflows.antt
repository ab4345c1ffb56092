-- ===== src/Workflows.antt =====
-- services/workflow_service/saga/workflows.py: the workflows as saga definitions. Their callables
-- never wait, so none of them runs out of time, and they do nothing outside the context but log.
pub mod Onboarding
pub mod Approval
pub mod Bulk
mod Tests
use taskforge_platform.Common.{String, Option, none, some, List, [], ◌∷◌, Bool, if◌then◌else◌}
use taskforge_platform.Common.Dict.{Dict, lookup}
use taskforge_platform.Common.Value.{Value, null, truth, number, str, items, dict, entries}
use taskforge_platform.Common.Result.{Result, ok, err}
use taskforge_platform.Saga.Step.{
  Context, Failure, Attempt, returned, raised, Action, Handler, Entry, executing, no_compensation,
  compensating, compensated, compensation_failed,
}
use taskforge_platform.Saga.Kinds.{no_attribute}

abbrev pub end_of : Result Failure Context → Attempt
end_of (ok d) = returned (some d)
end_of (err x) = raised x

-- A callable that returns a dict computed from the context, or raises.
abbrev pub from_context : {W : Type 0} → (Context → Result Failure Context) → Action W
from_context f c w = (end_of (f c), c, w)

-- A compensation handler that only logs.
abbrev pub only_logs : {W : Type 0} → Handler W
only_logs c w = (none, c, w)

-- The dict that `v` is; `.get` of another value raises AttributeError.
abbrev pub as_dict : Option Value → Result Failure (Dict Value)
as_dict none = ok []
as_dict (some (dict fs)) = ok (entries fs)
as_dict (some v) = err no_attribute

-- `context.get("task", {})`, for a use as a dict.
abbrev pub task_of : Context → Result Failure (Dict Value)
unfolding lookup
task_of c = as_dict (lookup "task" c)

-- What a trace holds of compensations.
abbrev pub compensation_log : List Entry → List Entry
compensation_log [] = []
compensation_log (no_compensation n ∷ t) = no_compensation n ∷ compensation_log t
compensation_log (compensating n ∷ t) = compensating n ∷ compensation_log t
compensation_log (compensated n ∷ t) = compensated n ∷ compensation_log t
compensation_log (compensation_failed n ∷ t) = compensation_failed n ∷ compensation_log t
compensation_log (e ∷ t) = compensation_log t

-- The names of the steps that a trace holds as begun.
abbrev pub begun_steps : List Entry → List String
begun_steps [] = []
begun_steps (executing n ∷ t) = n ∷ begun_steps t
begun_steps (e ∷ t) = begun_steps t
