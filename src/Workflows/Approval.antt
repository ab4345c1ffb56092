-- ===== src/Workflows/Approval.antt =====
-- `TaskApprovalWorkflow`: its steps and what decides how it ends.
use taskforge_platform.Common.{
  ℕ, ◌≡◌, refl, sym, subst, ap, ◌∙◌, ◌⊎◌, inl, inr, Bool, true, false, String, Option, none, some,
  [], ◌∷◌, str_eq, if◌then◌else◌,
}
use taskforge_platform.Common.Dict.{
  lookup, get_or, insert, update, lookup-insert_other, lookup-update_other,
}
use taskforge_platform.Common.Value.{Value, null, truth, str, truthy}
use taskforge_platform.Common.Result.{Result, ok, err}
use taskforge_platform.Saga.Step.{Context, Failure, exception, SagaStep, execute, compensating}
use taskforge_platform.Saga.Kinds.{new_step}
use taskforge_platform.Saga.Instance.{
  SagaDefinition, SagaInstance, SagaStatus, running, completed, compensated, add_step, new_instance,
  enter, leave, execute_saga,
}
use taskforge_platform.Saga.Instance.Runs.{
  execute_saga-closed, closed, give_up, run_steps-returned, run_steps-raised,
}
use taskforge_platform.Saga.Step
use taskforge_platform.Workflows.{end_of, from_context, only_logs, compensation_log, begun_steps}

unfoldable pub submit_for_review : Context → Result Failure Context
unfolding get_or
submit_for_review c =
    ok (("review_submitted", truth true) ∷ ("submitted_at", get_or "timestamp" null c) ∷ [])

-- `context.get("auto_approve", True)`, as a condition.
abbrev decides : Option Value → Bool
decides none = true
decides (some v) = truthy v

unfoldable pub approves : Context → Bool
unfolding lookup
approves c = decides (lookup "auto_approve" c)

abbrev approval : Context → Context
unfolding get_or
approval c = ("approved", truth true) ∷ ("approved_by", get_or "reviewer_id" (str "system") c) ∷ []

unfoldable pub process_approval : Context → Result Failure Context
unfolding approves approval
process_approval c =
    if approves c then ok (approval c) else err (exception "Task was rejected during approval")

unfoldable pub update_to_approved : Context → Result Failure Context
update_to_approved c = ok (("status_updated", truth true) ∷ ("new_status", str "approved") ∷ [])

unfoldable pub notify_stakeholders : Context → Result Failure Context
notify_stakeholders c = ok (("stakeholders_notified", truth true) ∷ [])

-- The steps that `create` builds, with the UUID of each.
module _ {W : Type 0} where
  abbrev pub submit_step : String → SagaStep W
  unfolding new_step submit_for_review
  submit_step id = record (new_step id "submit_for_review" (from_context submit_for_review)) {
    compensation = some only_logs;
    timeout_seconds = 20;
  }

  abbrev pub approval_step : String → SagaStep W
  unfolding new_step process_approval
  approval_step id = record (new_step id "process_approval" (from_context process_approval)) {
    compensation = some only_logs;
    retry_count = 1;
    timeout_seconds = 60;
  }

  abbrev pub update_step : String → SagaStep W
  unfolding new_step update_to_approved
  update_step id = record (new_step id "update_task_status" (from_context update_to_approved)) {
    compensation = some only_logs;
    timeout_seconds = 15;
  }

  abbrev pub notify_step : String → SagaStep W
  unfolding new_step notify_stakeholders
  notify_step id = record (new_step id "notify_stakeholders" (from_context notify_stakeholders)) {
    is_compensatable = false;
    retry_count = 2;
    timeout_seconds = 10;
  }

  -- `create`, with the UUIDs of the saga and of its steps.
  unfoldable pub approval_saga : (ℕ → String) → SagaDefinition W
  unfolding add_step submit_step approval_step update_step notify_step
  approval_saga uuid = add_step (notify_step (uuid 4)) (
      add_step (update_step (uuid 3)) (
        add_step (approval_step (uuid 2)) (
          add_step (submit_step (uuid 1)) (record {
            saga_id = uuid 0;
            name = "task_approval";
            steps = [];
            on_success = none;
            on_failure = none;
          }))))

-- The context of a new instance with the first step under way, and behind the first step.
abbrev at_submission : String → Context → Context
unfolding insert
at_submission id c =
    insert "current_step" (str "submit_for_review") (insert "saga_instance_id" (str id) c)

abbrev submitted : Context → Context
unfolding get_or
submitted c = ("review_submitted", truth true) ∷ ("submitted_at", get_or "timestamp" null c) ∷ []

-- The context in front of the second step.
abbrev at_approval : String → Context → Context
unfolding insert update
at_approval id c =
    let begun = at_submission id c in
    insert "current_step" (str "process_approval") (update begun (submitted begun))

lookup-at_approval :
    (id : String) (c : Context) → lookup "auto_approve" (at_approval id c) ≡ lookup "auto_approve" c
unfolding submitted at_submission insert at_approval update
lookup-at_approval id c =
    let begun = at_submission id c in
    lookup-insert_other "current_step" "auto_approve" (str "process_approval")
      (update begun (submitted begun)) refl
    ∙ (lookup-update_other "auto_approve" begun (submitted begun) (refl, (refl, tt))
        ∙ (lookup-insert_other "current_step" "auto_approve" (str "submit_for_review")
              (insert "saga_instance_id" (str id) c) refl
            ∙ lookup-insert_other "saga_instance_id" "auto_approve" (str id) c refl))

approves-at_approval : (id : String) (c : Context) → approves (at_approval id c) ≡ approves c
unfolding approves
approves-at_approval id c = ap decides (lookup-at_approval id c)

rejected : Failure
rejected = exception "Task was rejected during approval"

process_approval-rejected : (c : Context) → approves c ≡ false → process_approval c ≡ err rejected
unfolding process_approval rejected
process_approval-rejected c h = rw h refl

process_approval-accepted : (c : Context) → approves c ≡ true → process_approval c ≡ ok (approval c)
unfolding process_approval
process_approval-accepted c h = rw h refl

-- What the workflow ends with: the steps that it has begun and what was compensated.
abbrev pub ApprovalEnds : {W : Type 0} → Bool → Result Failure SagaStatus × SagaInstance W → Type 0
ApprovalEnds true (x, j) =
    (x ≡ ok completed)
    × (begun_steps j.run.trace
        ≡ "submit_for_review" ∷ "process_approval" ∷ "update_task_status" ∷ "notify_stakeholders"
          ∷ [])
    × (compensation_log j.run.trace ≡ [])
ApprovalEnds false (x, j) =
    (x ≡ ok compensated)
    × (begun_steps j.run.trace ≡ "submit_for_review" ∷ "process_approval" ∷ [])
    × (compensation_log j.run.trace
        ≡ compensating "submit_for_review" ∷ Step.compensated "submit_for_review" ∷ [])

ApprovalEnds-status :
    {W : Type 0} (b : Bool) (p : Result Failure SagaStatus × SagaInstance W)
    → ApprovalEnds b p
    → p.0 ≡ ok (if b then completed else compensated)
ApprovalEnds-status true p e = e.0
ApprovalEnds-status false p e = e.0

-- The value of "auto_approve" in the context, as Python takes it: a missing key stands for True.
abbrev pub AsksForApproval : Context → Type 0
unfolding lookup
AsksForApproval c =
    (lookup "auto_approve" c ≡ none)
    ⊎ ((v : Value) × (lookup "auto_approve" c ≡ some v) × (truthy v ≡ true))

abbrev pub AsksForRejection : Context → Type 0
unfolding lookup
AsksForRejection c = (v : Value) × (lookup "auto_approve" c ≡ some v) × (truthy v ≡ false)

-- One of the two is so, and decides.
abbrev pub Decided : {W : Type 0} → Context → Result Failure SagaStatus × SagaInstance W → Type 0
unfolding AsksForApproval AsksForRejection
Decided c p =
    (AsksForApproval c × ApprovalEnds true p) ⊎ (AsksForRejection c × ApprovalEnds false p)

decides_inv :
    {W : Type 0} (c : Context) (o : Option Value) (p : Result Failure SagaStatus × SagaInstance W)
    → lookup "auto_approve" c ≡ o
    → ApprovalEnds (decides o) p
    → Decided c p
unfolding Decided AsksForApproval AsksForRejection
decides_inv c none p h e = inl (inl h, e)
decides_inv c (some v) p h e = go (truthy v) refl e
  where
    go : (b : Bool) → truthy v ≡ b → ApprovalEnds b p → Decided c p
    go true t e = inl (inr (v, h, t), e)
    go false t e = inr ((v, h, t), e)

module _ {W : Type 0} (sleep : ℕ → W → W) (now : W → ℕ) (uuid : ℕ → String) (id : String) where
  -- The instance in front of the second step.
  abbrev before_approval : Context → W → SagaInstance W
  unfolding new_instance enter leave execute
  before_approval c w =
      let i = record (new_instance id (approval_saga uuid) (some c) w) {
        status = running;
        started_at = some (now w);
      } in
      leave (submit_step (uuid 1)) (submitted (at_submission id c))
        (execute sleep (submit_step (uuid 1)) (enter 0 (submit_step (uuid 1)) i).run).1
        (enter 0 (submit_step (uuid 1)) i)

  approval_saga-decided :
      (b : Bool) (c : Context) (w : W)
      → approves (at_approval id c) ≡ b
      → ApprovalEnds b (execute_saga sleep now (new_instance id (approval_saga uuid) (some c) w))
  unfolding execute_saga new_instance approval_saga before_approval update process_approval
      at_approval submitted at_submission submit_step approval_step closed give_up
  approval_saga-decided true c w h =
      subst (ApprovalEnds true)
        (sym (
          execute_saga-closed sleep now (new_instance id (approval_saga uuid) (some c) w) _ (
            run_steps-returned sleep 1 (approval_step (uuid 2))
              (update_step (uuid 3) ∷ notify_step (uuid 4) ∷ []) (before_approval c w)
              (approval (at_approval id c)) (at_approval id c) w
              (ap (λ y. (end_of y, at_approval id c, w))
                (process_approval-accepted (at_approval id c) h)))))
        (refl, refl, refl)
  approval_saga-decided false c w h =
      subst (ApprovalEnds false)
        (sym (
          execute_saga-closed sleep now (new_instance id (approval_saga uuid) (some c) w) _ (
            run_steps-raised sleep 1 (approval_step (uuid 2))
              (update_step (uuid 3) ∷ notify_step (uuid 4) ∷ []) (before_approval c w) rejected
              (λ v.
                ap (λ y. (end_of y, at_approval id c, v))
                  (process_approval-rejected (at_approval id c) h)))))
        (refl, refl, refl)

  approval_saga-approves :
      (c : Context) (w : W)
      → ApprovalEnds
          (approves c)
          (execute_saga sleep now (new_instance id (approval_saga uuid) (some c) w))
  approval_saga-approves c w = approval_saga-decided (approves c) c w (approves-at_approval id c)

  -- The status that it ends with.
  pub approval_saga-status :
      (c : Context) (w : W)
      → (execute_saga sleep now (new_instance id (approval_saga uuid) (some c) w)).0
        ≡ ok (if approves c then completed else compensated)
  approval_saga-status c w = ApprovalEnds-status (approves c) _ (approval_saga-approves c w)

  -- Either the context has no "auto_approve" or a true value there: the approval workflow ends
  -- COMPLETED, has begun its four steps in order and compensated none. Or it has a false value there:
  -- the workflow ends COMPENSATED, has begun only the submission and the approval, and the only
  -- compensation handler that was called is that of the submission, once, and it returned.
  pub approval_saga_lem :
      (c : Context) (w : W)
      → Decided c (execute_saga sleep now (new_instance id (approval_saga uuid) (some c) w))
  unfolding approves
  approval_saga_lem c w =
      decides_inv c (lookup "auto_approve" c) _ refl (approval_saga-approves c w)
