-- ===== src/Workflows/Onboarding/Ends.antt =====
-- How the onboarding workflow ends.
use taskforge_platform.Common.{
  ℕ, ◌≡◌, refl, sym, subst, ap, ◌∙◌, Bool, true, false, String, some, [], ◌∷◌, ◌==◌, str_eq,
}
use taskforge_platform.Common.Dict.{
  Dict, lookup, get_or, insert, update, lookup-insert, lookup-insert_other, Avoids,
  lookup-update_other,
}
use taskforge_platform.Common.Value.{Value, null, truth, str, truthy, object, entries-fields}
use taskforge_platform.Common.Result.{Result, ok, ◌>>=◌}
use taskforge_platform.Saga.Step.{
  Context, Failure, SagaStep, log, executing, completed, no_compensation, compensating,
}
use taskforge_platform.Saga.Step
use taskforge_platform.Saga.Kinds.{no_attribute}
use taskforge_platform.Saga.Instance.{
  SagaInstance, SagaStatus, running, compensated, new_instance, enter, leave, execute_saga,
}
use taskforge_platform.Saga.Instance.Runs.{
  execute_saga-closed, closed, give_up, run_steps-returned, run_steps-raised,
}
use taskforge_platform.Workflows.{end_of, as_dict, task_of, compensation_log}
use taskforge_platform.Workflows.Onboarding.{
  new_task, notification, notified, notify_assignee, audit_entry, create_audit_log, create_step,
  notify_step, audit_step, publish_step, onboarding_saga,
}

-- The context has a dict for the task.
abbrev HasTask : Context → Type 0
HasTask c = (t : Dict Value) × (lookup "task" c ≡ some (object t))

HasTask-insert :
    (k : String) (v : Value) (c : Context)
    → (k == "task") ≡ false
    → HasTask c
    → HasTask (insert k v c)
HasTask-insert k v c other (t, h) = (t, lookup-insert_other k "task" v c other ∙ h)

HasTask-update : (c d : Context) → Avoids "task" d → HasTask c → HasTask (update c d)
HasTask-update c d other (t, h) = (t, lookup-update_other "task" c d other ∙ h)

HasTask-create_task : (c : Context) (t : Dict Value) → HasTask (update c (("task", object t) ∷ []))
unfolding update
HasTask-create_task c t = (t, lookup-insert "task" "task" (object t) c ∙ refl)

task_of-HasTask : (c : Context) → HasTask c → (t : Dict Value) × (task_of c ≡ ok t)
unfolding task_of
task_of-HasTask c (t, h) = (t, ap as_dict h ∙ ap ok (entries-fields t))

-- A step returns a dict that leaves the task alone.
abbrev Returns : Result Failure Context → Type 0
Returns x = (d : Context) × (x ≡ ok d) × Avoids "task" d

notify_assignee-Returns :
    (headline : Value → String) (c : Context) → HasTask c → Returns (notify_assignee headline c)
unfolding notify_assignee notified
notify_assignee-Returns headline c h = go (truthy (get_or "assignee_id" null c))
  where
    go : (b : Bool) → Returns (notified headline c b)
    go false = (_, refl, (refl, tt))
    go true =
        let (t, e) = task_of-HasTask c h in
        (
          _,
          ap
              (λ x. x >>= λ task. ok (
                ("notification_sent", truth true)
                ∷ ("notification", object (notification headline c task))
                ∷ []))
              e,
          (refl, (refl, tt)),
        )

create_audit_log-Returns : (c : Context) → HasTask c → Returns (create_audit_log c)
unfolding create_audit_log
create_audit_log-Returns c h =
    let (t, e) = task_of-HasTask c h in
    (
      _,
      ap (λ x. x >>= λ task. ok (("audit_entry", object (audit_entry c task)) ∷ [])) e,
      (refl, tt),
    )

-- The saga is compensated. The audit log has nothing to undo it, and the handlers of the
-- notification and of the creation are called and return.
abbrev pub Undone : {W : Type 0} → Result Failure SagaStatus × SagaInstance W → Type 0
Undone (x, j) =
    (x ≡ ok compensated)
    × (compensation_log j.run.trace
        ≡ no_compensation "create_audit_log"
          ∷ compensating "notify_assignee"
          ∷ Step.compensated "notify_assignee"
          ∷ compensating "create_task"
          ∷ Step.compensated "create_task"
          ∷ [])

module _ {W : Type 0} (headline : Value → String) (sleep : ℕ → W → W) (now : W → ℕ)
    (uuid : ℕ → String) (id : String) where
  -- The instance behind step `k`, which returned `d`.
  abbrev behind : ℕ → SagaStep W → Context → SagaInstance W → SagaInstance W
  unfolding enter leave
  behind k s d i =
      leave s d (log (completed s.name 1) (log (executing s.name) (enter k s i).run)) (enter k s i)

  abbrev begun : Context → W → SagaInstance W
  unfolding new_instance onboarding_saga
  begun c w = record (new_instance id (onboarding_saga headline uuid) (some c) w) {
    status = running;
    started_at = some (now w);
  }

  abbrev created : Context → W → SagaInstance W
  unfolding begun behind create_step new_task
  created c w =
      behind 0 (create_step headline (uuid 1))
        ((
          "task",
          object (new_task (enter 0 (create_step headline (uuid 1)) (begun c w)).run.context),
        )
          ∷ [])
        (begun c w)

  HasTask-created : (c : Context) (w : W) → HasTask (created c w).run.context
  unfolding created behind leave
  HasTask-created c w =
      let i = enter 0 (create_step headline (uuid 1)) (begun c w) in
      HasTask-create_task i.run.context (new_task i.run.context)

  -- Whatever the context, the onboarding workflow ends with the status COMPENSATED: behind the
  -- last step, which failed, the audit log is left as it is for want of a compensation, and then
  -- the compensation handlers of the notification and of the creation of the task are called, in
  -- this order, and return.
  pub onboarding_saga-Undone :
      (c : Context) (w : W)
      → Undone (execute_saga sleep now (new_instance id (onboarding_saga headline uuid) (some c) w))
  unfolding execute_saga new_instance onboarding_saga begun created behind enter leave closed
      give_up create_step notify_step audit_step publish_step
  onboarding_saga-Undone c w =
      let s2 : SagaStep W = notify_step headline (uuid 2) in
      let s3 : SagaStep W = audit_step headline (uuid 3) in
      let s4 : SagaStep W = publish_step headline (uuid 4) in
      let i1 = created c w in
      let c1 = (enter 1 s2 i1).run.context in
      let h1 : HasTask c1 =
        HasTask-insert "current_step" (str "notify_assignee") i1.run.context refl
          (HasTask-created c w) in
      let (d2, e2, o2) = notify_assignee-Returns headline c1 h1 in
      let i2 = behind 1 s2 d2 i1 in
      let c2 = (enter 2 s3 i2).run.context in
      let h2 : HasTask c2 =
        HasTask-insert "current_step" (str "create_audit_log") i2.run.context refl
          (HasTask-update c1 d2 o2 h1) in
      let (d3, e3, o3) = create_audit_log-Returns c2 h2 in
      let i3 = behind 2 s3 d3 i2 in
      subst Undone
        (sym (
          execute_saga-closed sleep now (new_instance id (onboarding_saga headline uuid) (some c) w)
            _
            (run_steps-returned sleep 1 s2 (s3 ∷ s4 ∷ []) i1 d2 c1 w
                (ap (λ x. (end_of x, c1, w)) e2)
              ∙ (run_steps-returned sleep 2 s3 (s4 ∷ []) i2 d3 c2 w (ap (λ x. (end_of x, c2, w)) e3)
                  ∙ run_steps-raised sleep 3 s4 [] i3 no_attribute (λ v. refl)))))
        (refl, refl)
