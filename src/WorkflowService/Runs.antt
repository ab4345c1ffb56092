-- ===== src/WorkflowService/Runs.antt =====
-- A workflow that is started through the service and runs to its end in the background, with nothing
-- between: what the service says of it then.
use taskforge_platform.Common.{
  ℕ, ◌≡◌, refl, ap, ◌∙◌, Bool, false, String, Option, none, some, str_eq, eq_iff, if◌then◌else◌,
}
use taskforge_platform.Common.Dict.{Dict, lookup, lookup-insert_self, lookup-erase}
use taskforge_platform.Common.Value.{Value, str}
use taskforge_platform.Common.Result.{⊤, Result, ok, err}
use taskforge_platform.Saga.Step.{Context, Failure}
use taskforge_platform.Saga.Kinds.{Gather}
use taskforge_platform.Saga.Instance.{
  SagaDefinition, SagaInstance, SagaStatus, pending, completed, compensated, new_instance,
  execute_saga,
}
use taskforge_platform.Saga.Instance.Compensation.{Ends, execute_saga-Ends}
use taskforge_platform.Saga.Instance.Identity.{execute_saga-instance_id}
use taskforge_platform.Saga.Instance.View.{to_dict, status_value}
use taskforge_platform.Saga.Orchestrator.{
  SagaOrchestrator, put_running, start_saga, cleanup, get_instance, or_else, cancel_saga,
  cancel_found, execute_and_cleanup,
}
use taskforge_platform.Workflows.Onboarding.{onboarding_saga}
use taskforge_platform.Workflows.Onboarding.Ends.{onboarding_saga-Undone}
use taskforge_platform.Workflows.Approval.{approves, approval_saga, approval_saga-status}
use taskforge_platform.WorkflowService.{
  WorkflowServiceApp, StartError, workflow_registry, get_workflow_status, cancel_workflow, create,
  start_with, start_workflow,
}

module _ {W : Type 0} (sleep : ℕ → W → W) (now : W → ℕ) where
  gone :
      (i j : SagaInstance W) (o : SagaOrchestrator W)
      → j.instance_id ≡ i.instance_id
      → lookup i.instance_id (cleanup j o).running_instances ≡ none
  unfolding cleanup
  gone i j o h =
      lookup-erase j.instance_id i.instance_id o.running_instances
      ∙ rw ((eq_iff j.instance_id i.instance_id).1 h) refl

  kept :
      (i j : SagaInstance W) (o : SagaOrchestrator W)
      → j.instance_id ≡ i.instance_id
      → lookup i.instance_id (cleanup j o).completed_instances ≡ some j
  unfolding cleanup
  kept i j o h = rw (← h) (lookup-insert_self j.instance_id j o.completed_instances)

  pub get_instance-execute_and_cleanup :
      (i : SagaInstance W) (o : SagaOrchestrator W)
      → get_instance i.instance_id (execute_and_cleanup sleep now i o).1
        ≡ some (execute_saga sleep now i).1
  unfolding get_instance execute_and_cleanup
  get_instance-execute_and_cleanup i o =
      let j = (execute_saga sleep now i).1 in
      let h = execute_saga-instance_id sleep now i in
      ap (λ x. or_else x (lookup i.instance_id (cleanup j o).completed_instances)) (gone i j o h)
      ∙ kept i j o h

  cancel_saga-execute_and_cleanup :
      (i : SagaInstance W) (o : SagaOrchestrator W)
      → let o' = (execute_and_cleanup sleep now i o).1 in cancel_saga i.instance_id o' ≡ (false, o')
  unfolding cancel_saga cancel_found execute_and_cleanup
  cancel_saga-execute_and_cleanup i o =
      let j = (execute_saga sleep now i).1 in
      ap (λ x. cancel_found i.instance_id x (cleanup j o))
        (gone i j o (execute_saga-instance_id sleep now i))

  -- The service when the background task of an instance has ended.
  abbrev pub after : SagaInstance W → WorkflowServiceApp W → WorkflowServiceApp W
  unfolding execute_and_cleanup
  after i a = record a { orchestrator = (execute_and_cleanup sleep now i a.orchestrator).1 }

  -- The status that a run leaves is the one that it answers.
  status-execute_saga :
      (i : SagaInstance W) (p : Result Failure SagaStatus × SagaInstance W) (s : SagaStatus)
      → Ends i p
      → p.0 ≡ ok s
      → p.1.status ≡ s
  status-execute_saga i (ok x, j) s e h = cc (e.0, h)
  status-execute_saga i (err x, j) s e h = cc h

  module _ (isoformat : ℕ → String) (show : Failure → String) (headline : Value → String)
      (gather : Gather W (Result Failure Context)) (gather_all : Gather W (Result Failure ⊤)) where
    abbrev Told : String → SagaInstance W → WorkflowServiceApp W → Type 0
    Told id i b =
        (get_workflow_status isoformat show id b ≡ some (to_dict isoformat show i))
        × (i.status ≡ pending)
        × (get_workflow_status isoformat show id (after i b)
            ≡ some (to_dict isoformat show (execute_saga sleep now i).1))
        × (cancel_workflow id (after i b) ≡ (false, after i b))

    abbrev pub Started :
        String
        → WorkflowServiceApp W
        → Result StartError (SagaInstance W) × WorkflowServiceApp W
        → Type 0
    Started id a (err e, b) = b ≡ a
    Started id a (ok i, b) = Told id i b

    start_with-Started :
        (id : String) (x : Result StartError (SagaDefinition W)) (c : Context) (w : W)
        (a : WorkflowServiceApp W)
        → Started id a (start_with headline sleep gather gather_all id x c w a)
    unfolding start_with start_saga put_running new_instance get_workflow_status get_instance
        cancel_workflow after execute_and_cleanup
    start_with-Started id (err e) c w a = refl
    start_with-Started id (ok d) c w a =
        let i = new_instance id d (some c) w in
        let o = put_running i a.orchestrator in
        (
          ap (λ x. answer (or_else x (lookup id o.completed_instances)))
              (lookup-insert_self id i a.orchestrator.running_instances),
          refl,
          ap answer (get_instance-execute_and_cleanup i o),
          ap (λ (p : Bool × SagaOrchestrator W). (p.0, record a { orchestrator = p.1 }))
              (cancel_saga-execute_and_cleanup i o),
        )
      where
        answer : Option (SagaInstance W) → Option (Dict Value)
        answer x = elim x [ none ↦ none | some i ↦ some (to_dict isoformat show i) ]

    -- A call of `start_workflow` that raises leaves the service as it was. If it returns, the new
    -- instance is pending, and `get_workflow_status` finds it under its id. When its background task
    -- has run to its end with no other call between, `get_workflow_status` finds the instance as
    -- `execute` has left it, and `cancel_workflow` answers false and changes nothing.
    pub start_workflow_lem :
        (id : String) (uuid : ℕ → String) (name : String) (c : Context) (w : W)
        (a : WorkflowServiceApp W)
        → Started id a (start_workflow headline sleep gather gather_all id uuid name c w a)
    unfolding start_workflow
    start_workflow_lem id uuid name c w a = start_with-Started id _ c w a

    -- What the service says of a workflow that was started and has run to its end.
    unfoldable pub reported :
        String → Result StartError (SagaInstance W) × WorkflowServiceApp W → Option (Dict Value)
    unfolding get_workflow_status execute_and_cleanup
    reported id (err e, b) = none
    reported id (ok i, b) = get_workflow_status isoformat show id (after i b)

    -- It answers with the status `s`.
    abbrev pub Answers : SagaStatus → Option (Dict Value) → Type 0
    Answers s x =
        (d : Dict Value) × (x ≡ some d) × (lookup "status" d ≡ some (str (status_value s)))

    start_with-Answers :
        (id : String) (d : SagaDefinition W) (c : Context) (w : W) (a : WorkflowServiceApp W)
        (s : SagaStatus)
        → (execute_saga sleep now (new_instance id d (some c) w)).0 ≡ ok s
        → Answers s (reported id (start_with headline sleep gather gather_all id (ok d) c w a))
    unfolding start_with start_saga put_running new_instance reported to_dict lookup
    start_with-Answers id d c w a s h =
        let i = new_instance id d (some c) w in
        let (_, _, told, _) = start_with-Started id (ok d) c w a in
        (
          to_dict isoformat show (execute_saga sleep now i).1,
          told,
          ap (λ t. some (str (status_value t)))
              (status-execute_saga i (execute_saga sleep now i) s
                (execute_saga-Ends sleep now i refl) h),
        )

    unfoldable pub run_to_end :
        String → (ℕ → String) → String → Context → W → WorkflowServiceApp W → Option (Dict Value)
    unfolding reported start_workflow
    run_to_end id uuid name c w a =
        reported id (start_workflow headline sleep gather gather_all id uuid name c w a)

    -- Started by name with any context and run to their ends, the onboarding workflow is reported as
    -- compensated, and the approval workflow as completed if the context asks for no manual
    -- decision, and as compensated otherwise.
    pub start_workflow-Answers :
        (id : String) (uuid : ℕ → String) (c : Context) (w : W) (a : WorkflowServiceApp W)
        → Answers compensated (run_to_end id uuid "task_onboarding" c w a)
          × Answers
              (if approves c then completed else compensated)
              (run_to_end id uuid "task_approval" c w a)
    unfolding run_to_end start_workflow create lookup workflow_registry
    start_workflow-Answers id uuid c w a = (
      start_with-Answers id (onboarding_saga headline uuid) c w a compensated
          (onboarding_saga-Undone headline sleep now uuid id c w).0,
      start_with-Answers id (approval_saga uuid) c w a
          (if approves c then completed else compensated)
          (approval_saga-status sleep now uuid id c w),
    )
