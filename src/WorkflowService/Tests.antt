-- ===== src/WorkflowService/Tests.antt =====
-- The service on one onboarding request and one approval request, and on an unknown name.
use taskforge_platform.Common.{
  ℕ, ◌+◌, ◌≡◌, refl, true, false, String, none, some, [], ◌∷◌, if◌then◌else◌,
}
use taskforge_platform.Common.Result.{ok, err}
use taskforge_platform.Common.Value.{Value, truth, str}
use taskforge_platform.Saga.Step.{Context, Failure}
use taskforge_platform.Saga.Kinds.{Gather}
use taskforge_platform.Saga.Instance.{completed, compensated}
use taskforge_platform.Workflows.Approval.{approves}
use taskforge_platform.WorkflowService.{
  new_app, unknown_workflow, not_iterable, task_ids_of, start_workflow,
}
use taskforge_platform.Observability.{new_manager}
use taskforge_platform.WorkflowService.Lifecycle.{Process, initialize, begin, shutdown}
use taskforge_platform.WorkflowService.Runs.{
  Started, start_workflow_lem, Answers, run_to_end, start_workflow-Answers,
}

abbrev sleep : ℕ → ℕ → ℕ
sleep d t = t + d

abbrev now : ℕ → ℕ
now t = t

abbrev uuid : ℕ → String
uuid n = "u"

abbrev isoformat : ℕ → String
isoformat t = "2026-05-12T10:00:00"

abbrev show : Failure → String
show e = "error"

abbrev headline : Value → String
headline v = "New task assigned"

-- The awaitables one after the other.
abbrev in_turn : {A : Type 0} → Gather ℕ A
in_turn [] w = ([], w)
in_turn (f ∷ fs) w = let (a, w') = f w in let (l, w'') = in_turn fs w' in (a ∷ l, w'')

abbrev request : Context
request = ("title", str "write tests") ∷ ("auto_approve", truth false) ∷ []

unknown_name :
    start_workflow headline sleep in_turn in_turn "i" uuid "task_review" request 0 new_app
    ≡ (err (unknown_workflow "task_review"), new_app)
unfolding start_workflow
unknown_name = refl

ids_of_truth : task_ids_of (some (truth true)) ≡ err not_iterable
unfolding task_ids_of
ids_of_truth = refl

ids_of_text : task_ids_of (some (str "t1")) ≡ ok ("t" ∷ "1" ∷ [])
unfolding task_ids_of
ids_of_text = refl

start_workflow_lem_example :
    Started sleep now isoformat show headline in_turn in_turn "i" new_app
      (start_workflow headline sleep in_turn in_turn "i" uuid "task_bulk" request 0 new_app)
start_workflow_lem_example =
    start_workflow_lem sleep now isoformat show headline in_turn in_turn "i" uuid "task_bulk"
      request 0 new_app

start_workflow-Answers_example :
    Answers sleep now isoformat show headline in_turn in_turn compensated (
      run_to_end sleep now isoformat show headline in_turn in_turn "i" uuid "task_onboarding"
        request 0 new_app)
    × Answers sleep now isoformat show headline in_turn in_turn
        (if approves request then completed else compensated)
        (run_to_end sleep now isoformat show headline in_turn in_turn "i" uuid "task_approval"
          request 0 new_app)
start_workflow-Answers_example =
    start_workflow-Answers sleep now isoformat show headline in_turn in_turn "i" uuid request 0
      new_app

abbrev idle : Process ℕ
unfolding new_app new_manager
idle = record { app = new_app; manager = new_manager; world = 0 }

-- `demo_workflows` initializes the service and shuts it down, and never calls `start`.
telemetry_left : (shutdown sleep (initialize (λ name. none) idle)).manager.initialized ≡ true
unfolding shutdown initialize idle
telemetry_left = refl

telemetry_shut : (shutdown sleep (begin (λ name. none) idle)).manager.initialized ≡ false
unfolding shutdown begin idle
telemetry_shut = refl
