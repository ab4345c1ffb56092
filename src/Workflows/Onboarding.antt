-- ===== src/Workflows/Onboarding.antt =====
-- `TaskOnboardingWorkflow`. The text that an f-string makes of a title is the function `headline`.
pub mod Ends
use taskforge_platform.Common.{
  ℕ, ◌+◌, ◌*◌, ◌^◌, ◌≡◌, refl, sym, subst, ap, ◌∙◌, Bool, true, false, not, String, Option, none,
  some, List, [], ◌∷◌, ◌++◌, Bool-cases, inl, inr, ◌==◌, str_eq, if◌then◌else◌,
}
use taskforge_platform.Common.Dict.{
  Dict, lookup, get_or, insert, update, lookup-insert, lookup-insert_other, Avoids,
  lookup-update_other,
}
use taskforge_platform.Common.Value.{
  Value, null, truth, number, str, truthy, object, entries-fields,
}
use taskforge_platform.Common.Result.{Result, ok, err, ◌>>=◌}
use taskforge_platform.Saga.Step.{Context, Failure, Attempt, SagaStep, pause, execute}
use taskforge_platform.Saga.Kinds.{Produced, coroutine, no_attribute, new_step, kafka_publish_step}
use taskforge_platform.Saga.Instance.{
  SagaDefinition, SagaInstance, SagaStatus, running, compensated, add_step, new_instance, enter,
  leave, execute_saga,
}
use taskforge_platform.Saga.Instance.Trace.{undone}
use taskforge_platform.Saga.Instance.Runs.{
  execute_saga-closed, closed, give_up, run_steps-returned, run_steps-raised,
}
use taskforge_platform.Workflows.{end_of, from_context, only_logs, as_dict, task_of}

abbrev pub new_task : Context → Dict Value
unfolding get_or
new_task c =
    ("id", get_or "task_id" (str "") c)
    ∷ ("title", get_or "title" (str "") c)
    ∷ ("description", get_or "description" (str "") c)
    ∷ ("priority", get_or "priority" (str "medium") c)
    ∷ ("status", str "backlog")
    ∷ ("assignee_id", get_or "assignee_id" null c)
    ∷ ("created_by", get_or "created_by" (str "system") c)
    ∷ ("version", number 1)
    ∷ []

unfoldable pub create_task : Context → Result Failure Context
unfolding new_task
create_task c = ok (("task", object (new_task c)) ∷ [])

abbrev pub notification : (Value → String) → Context → Dict Value → Dict Value
unfolding get_or
notification headline c task =
    ("recipient_id", get_or "assignee_id" null c)
    ∷ ("type", str "task_assigned")
    ∷ ("title", str (headline (get_or "title" (str "Untitled") task)))
    ∷ ("body", get_or "description" (str "") task)
    ∷ ("priority", get_or "priority" (str "medium") task)
    ∷ []

-- `if not assignee_id: return …`, and what follows it.
abbrev pub notified : (Value → String) → Context → Bool → Result Failure Context
unfolding notification task_of
notified headline c false = ok (("notification_sent", truth false) ∷ [])
notified headline c true = task_of c >>= λ task. ok (
    ("notification_sent", truth true)
    ∷ ("notification", object (notification headline c task))
    ∷ [])

unfoldable pub notify_assignee : (Value → String) → Context → Result Failure Context
unfolding notified get_or
notify_assignee headline c = notified headline c (truthy (get_or "assignee_id" null c))

abbrev pub audit_entry : Context → Dict Value → Dict Value
unfolding get_or
audit_entry c task =
    ("action", str "task_created")
    ∷ ("entity_type", str "task")
    ∷ ("entity_id", get_or "id" (str "") task)
    ∷ ("user_id", get_or "created_by" (str "system") c)
    ∷ (
      "details",
      object (("title", get_or "title" null task) ∷ ("priority", get_or "priority" null task) ∷ []),
    )
    ∷ []

unfoldable pub create_audit_log : Context → Result Failure Context
unfolding task_of audit_entry
create_audit_log c = task_of c >>= λ task. ok (("audit_entry", object (audit_entry c task)) ∷ [])

-- `_build_task_created_event` is an `async` function: a call gives a coroutine object.
unfoldable pub build_task_created_event : Context → Result Failure Produced
build_task_created_event c = ok coroutine

module _ {W : Type 0} (headline : Value → String) where
  abbrev pub create_step : String → SagaStep W
  unfolding new_step create_task
  create_step id = record (new_step id "create_task" (from_context create_task)) {
    compensation = some only_logs;
    retry_delay = 2000;
  }

  abbrev pub notify_step : String → SagaStep W
  unfolding new_step notify_assignee
  notify_step id =
      record (new_step id "notify_assignee" (from_context (notify_assignee headline))) {
        compensation = some only_logs;
        retry_count = 2;
        timeout_seconds = 15;
      }

  abbrev pub audit_step : String → SagaStep W
  unfolding new_step create_audit_log
  audit_step id = record (new_step id "create_audit_log" (from_context create_audit_log)) {
    is_compensatable = false;
    retry_count = 1;
    timeout_seconds = 10;
  }

  abbrev pub publish_step : String → SagaStep W
  unfolding kafka_publish_step build_task_created_event
  publish_step id =
      kafka_publish_step id "publish_task_created_event" "task.events" build_task_created_event none

  -- `create`, with the UUIDs of the saga and of its steps.
  unfoldable pub onboarding_saga : (ℕ → String) → SagaDefinition W
  unfolding add_step create_step notify_step audit_step publish_step
  onboarding_saga uuid = add_step (publish_step (uuid 4)) (
      add_step (audit_step (uuid 3)) (
        add_step (notify_step (uuid 2)) (
          add_step (create_step (uuid 1)) (record {
            saga_id = uuid 0;
            name = "task_onboarding";
            steps = [];
            on_success = none;
            on_failure = none;
          }))))
