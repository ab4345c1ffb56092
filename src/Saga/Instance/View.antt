-- ===== src/Saga/Instance/View.antt =====
-- `SagaInstance.to_dict`. How a time and an exception print are arguments.
use taskforge_platform.Common.{ℕ, String, Option, none, some, [], ◌∷◌, length}
use taskforge_platform.Common.Dict.{Dict}
use taskforge_platform.Common.Value.{Value, str, number, optional}
use taskforge_platform.Saga.Step.{Failure}
use taskforge_platform.Saga.Instance.{
  SagaStatus, pending, running, completed, failed, compensating, compensated, cancelled,
  SagaInstance,
}

-- `self.status.value`
unfoldable pub status_value : SagaStatus → String
status_value pending = "pending"
status_value running = "running"
status_value completed = "completed"
status_value failed = "failed"
status_value compensating = "compensating"
status_value compensated = "compensated"
status_value cancelled = "cancelled"

abbrev pub printed : {A : Type 0} → (A → String) → Option A → Value
printed f none = optional none
printed f (some a) = str (f a)

module _ {W : Type 0} (isoformat : ℕ → String) (show : Failure → String) where
  unfoldable pub to_dict : SagaInstance W → Dict Value
  unfolding status_value
  to_dict i =
      ("instance_id", str i.instance_id)
      ∷ ("saga_name", str i.definition.name)
      ∷ ("status", str (status_value i.status))
      ∷ ("current_step_index", number i.current_step_index)
      ∷ ("completed_steps", number (length i.completed_steps))
      ∷ ("total_steps", number (length i.definition.steps))
      ∷ ("started_at", printed isoformat i.started_at)
      ∷ ("completed_at", printed isoformat i.completed_at)
      ∷ ("error", printed show i.error)
      ∷ []
