-- ===== src/WorkflowService.antt =====
-- services/workflow_service/main.py: `WorkflowServiceApp`, the workflows by their names and the
-- calls that it hands to the orchestrator.

pub mod Runs
pub mod Lifecycle
mod Tests
use taskforge_platform.Common.{
  ℕ, Bool, true, false, String, Option, none, some, List, [], ◌∷◌, map, is_nil, if◌then◌else◌,
}
use taskforge_platform.Common.Dict.{Dict, lookup}
use taskforge_platform.Common.Value.{
  Value, null, truth, number, str, items, dict, Values, nil, cons, entries,
}
use taskforge_platform.Common.Result.{⊤, Result, ok, err, ◌>>=◌}
use taskforge_platform.Saga.Step.{Context, Failure}
use taskforge_platform.Saga.Kinds.{Gather}
use taskforge_platform.Saga.Instance.{SagaDefinition, SagaInstance}
use taskforge_platform.Saga.Instance.View.{to_dict}
use taskforge_platform.Saga.Orchestrator.{
  SagaOrchestrator, new_orchestrator, start_saga, get_instance, cancel_saga, get_active_sagas,
}
use taskforge_platform.Workflows.Onboarding.{onboarding_saga}
use taskforge_platform.Workflows.Approval.{approval_saga}
use taskforge_platform.Workflows.Bulk.{bulk_saga}

pub data WorkflowClass : Type 0 where
  task_onboarding_workflow task_approval_workflow task_bulk_workflow : WorkflowClass

-- `_workflow_registry`, which nothing changes.
unfoldable pub workflow_registry : Dict WorkflowClass
workflow_registry =
    ("task_onboarding", task_onboarding_workflow)
    ∷ ("task_approval", task_approval_workflow)
    ∷ ("task_bulk", task_bulk_workflow)
    ∷ []

pub record WorkflowServiceApp (W : Type 0) : Type 0 where
  pub orchestrator : SagaOrchestrator W
  pub is_running : Bool

pub data StartError : Type 0 where
  unknown_workflow : String → StartError  -- ValueError(f"Unknown workflow: {workflow_name}")
  not_iterable : StartError  -- TypeError of `for task_id in task_ids`
  -- Arguments of `TaskBulkOperationWorkflow.create` against its annotations, which are not followed.
  ill_typed : StartError

abbrev text_items : Values → Option (List String)
text_items nil = some []
text_items (cons (str s) vs) = elim (text_items vs) [ none ↦ none | some l ↦ some (s ∷ l) ]
text_items (cons v vs) = none

abbrev characters : String → List String
characters String.[] = []
characters (String.◌∷◌ c s) = String.◌∷◌ c String.[] ∷ characters s

-- What `for task_id in context.get("task_ids", [])` runs over.
unfoldable pub task_ids_of : Option Value → Result StartError (List String)
task_ids_of none = ok []
task_ids_of (some (items vs)) = elim (text_items vs) [ none ↦ err ill_typed | some l ↦ ok l ]
task_ids_of (some (str s)) = ok (characters s)
task_ids_of (some (dict fs)) = ok (map (λ e. e.0) (entries fs))
task_ids_of (some v) = err not_iterable

-- `context.get("operation", "archive")`
unfoldable pub operation_of : Option Value → Result StartError String
operation_of none = ok "archive"
operation_of (some (str s)) = ok s
operation_of (some v) = err ill_typed

module _ {W : Type 0} where
  unfoldable pub new_app : WorkflowServiceApp W
  unfolding new_orchestrator
  new_app = record { orchestrator = new_orchestrator; is_running = false }

  -- `cancel_workflow`
  unfoldable pub cancel_workflow : String → WorkflowServiceApp W → Bool × WorkflowServiceApp W
  unfolding cancel_saga
  cancel_workflow id a =
      let (x, o) = cancel_saga id a.orchestrator in (x, record a { orchestrator = o })

module _ {W : Type 0} (isoformat : ℕ → String) (show : Failure → String) where
  -- `get_workflow_status`
  unfoldable pub get_workflow_status : String → WorkflowServiceApp W → Option (Dict Value)
  unfolding get_instance to_dict
  get_workflow_status id a = elim (get_instance id a.orchestrator) [
    | none ↦ none
    | some i ↦ some (to_dict isoformat show i)
  ]

  -- `list_active_workflows`
  unfoldable pub list_active_workflows : WorkflowServiceApp W → List (Dict Value)
  unfolding get_active_sagas
  list_active_workflows a = get_active_sagas isoformat show a.orchestrator

module _ {W : Type 0} (headline : Value → String) (sleep : ℕ → W → W)
    (gather : Gather W (Result Failure Context)) (gather_all : Gather W (Result Failure ⊤)) where
  -- `workflow_class.create(…)`, with the UUIDs that it draws.
  unfoldable pub create :
      WorkflowClass → (ℕ → String) → Context → Result StartError (SagaDefinition W)
  unfolding onboarding_saga approval_saga bulk_saga task_ids_of operation_of lookup
  create task_onboarding_workflow uuid c = ok (onboarding_saga headline uuid)
  create task_approval_workflow uuid c = ok (approval_saga uuid)
  create task_bulk_workflow uuid c = task_ids_of (lookup "task_ids" c) >>= λ ids.
      operation_of (lookup "operation" c) >>= λ operation.
      ok (bulk_saga sleep gather gather_all uuid ids operation)

  -- `start_workflow` with what the registry has.
  unfoldable pub start_with :
      String
      → Result StartError (SagaDefinition W)
      → Context
      → W
      → WorkflowServiceApp W
      → Result StartError (SagaInstance W) × WorkflowServiceApp W
  unfolding start_saga
  start_with id (err e) c w a = (err e, a)
  start_with id (ok d) c w a =
      let (i, o) = start_saga id d (some c) w a.orchestrator in
      (ok i, record a { orchestrator = o })

  abbrev found :
      (ℕ → String) → String → Context → Option WorkflowClass → Result StartError (SagaDefinition W)
  unfolding create
  found uuid name c none = err (unknown_workflow name)
  found uuid name c (some k) = create k uuid c

  -- `start_workflow`, with the UUID of the instance.
  unfoldable pub start_workflow :
      String
      → (ℕ → String)
      → String
      → Context
      → W
      → WorkflowServiceApp W
      → Result StartError (SagaInstance W) × WorkflowServiceApp W
  unfolding start_with found lookup workflow_registry
  start_workflow id uuid name c w a =
      start_with id (found uuid name c (lookup name workflow_registry)) c w a
