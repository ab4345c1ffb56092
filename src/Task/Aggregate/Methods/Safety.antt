-- ===== src/Task/Aggregate/Methods/Safety.antt =====
-- What the commands never do to a task: leave the diagram of the statuses, or touch a deleted task.
use taskforge_platform.Common.{
  Bool, true, false, String, Option, ◌≡◌, refl, sym, ap, ◌∙◌, ◌⊎◌, inl, inr, arith, Runtime,
  Datetime,
}
use taskforge_platform.Common.Dict.{Dict}
use taskforge_platform.Common.Result.{Result, ok, err}
use taskforge_platform.Common.Method.{lift, >>=-eq-ok, ◌>>=◌, ◌>>◌}
use taskforge_platform.EventSourcing.Replay.{raise_event_inv}
use taskforge_platform.Task.Errors.{
  Error, has_been_deleted, cannot_transition, raise_value, frozen_instance,
}
use taskforge_platform.Task.Status.{TaskStatus, status_eq, can_transition_to, parse-value_iff}
use taskforge_platform.Task.Status
use taskforge_platform.Task.Events.{
  Change, TaskUpdated, TaskEventData, created, updated, assigned, status_changed, priority_changed,
  deleted,
}
use taskforge_platform.Task.Aggregate.{
  Task, TaskAggregate, to_status, update_title, update_description, update_status, update_priority,
  update_labels, apply_updated, apply_data, apply_assigned, apply_status_changed,
  apply_priority_changed, apply_deleted, new_text, apply_event,
}
use taskforge_platform.Task.Aggregate.Methods.{
  Fresh, Call, new_event, emit, update, assign, change_status, change_priority, delete,
  validate_not_deleted,
}
use taskforge_platform.Task.Aggregate.Methods.Changes.{AllowedChange}
use taskforge_platform.Task.Aggregate.Methods.Commands.{
  Command, to_update, to_assign, to_change_status, to_change_priority, to_delete, execute,
  execute-Emits, IsLawful,
}

refused :
    (a : TaskAggregate) (k : Call)
    → a.state.is_deleted ≡ true
    → (validate_not_deleted >> k) a ≡ (err (raise_value (has_been_deleted a.aggregate_id)), a)
unfolding validate_not_deleted
refused a k h = simp h

lift_refused :
    {A : Type 0} (r : Result Error A) (a : TaskAggregate) (k : Call)
    → a.state.is_deleted ≡ true
    → (x : Error) × ((lift r >>= λ _. validate_not_deleted >> k) a ≡ (err x, a))
lift_refused (ok y) a k h = (_, refused a k h)
lift_refused (err x) a k h = (x, refl)

module _ ⦃rt : Runtime⦄ (frozen : Bool) (f : Fresh) where
  -- On a deleted task every command raises and changes nothing.
  pub execute_deleted :
      (c : Command) (a : TaskAggregate)
      → a.state.is_deleted ≡ true
      → (x : Error) × (execute frozen f c a ≡ (err x, a))
  unfolding execute update assign change_status change_priority delete
  execute_deleted (to_update c) a h = lift_refused _ a _ h
  execute_deleted (to_assign c) a h = lift_refused _ a _ h
  execute_deleted (to_change_status s by reason) a h = (_, refused a _ h)
  execute_deleted (to_change_priority p by) a h = (_, refused a _ h)
  execute_deleted (to_delete c) a h = lift_refused _ a _ h

  -- On a task that is not deleted, `change_status` to the status that the task has raises the error
  -- of a transition that is not allowed, and changes nothing.
  pub change_status_same :
      (a : TaskAggregate) (by : String) (reason : Option String)
      → a.state.is_deleted ≡ false
      → change_status frozen f a.state.status by reason a
        ≡ (err (raise_value (cannot_transition a.state.status a.state.status)), a)
  unfolding change_status can_transition_to
  change_status_same a by reason h = ground arith

  -- The steps of `_apply_updated` that are not about the status leave it alone.
  status-update_title :
      (d : Dict Change) (t u : Task) → update_title d t ≡ (ok tt, u) → u.status ≡ t.status
  unfolding update_title
  status-update_title d t u h = ground arith

  status-update_description :
      (d : Dict Change) (t u : Task) → update_description d t ≡ (ok tt, u) → u.status ≡ t.status
  unfolding update_description
  status-update_description d t u h = ground arith

  status-update_priority :
      (d : Dict Change) (t u : Task) → update_priority d t ≡ (ok tt, u) → u.status ≡ t.status
  unfolding update_priority
  status-update_priority d t u h = ground arith

  status-update_labels :
      (d : Dict Change) (t u : Task) → update_labels d t ≡ (ok tt, u) → u.status ≡ t.status
  unfolding update_labels
  status-update_labels d t u h = ground arith

  abbrev Moved : TaskStatus → TaskStatus → Type 0
  Moved s s' = (s' ≡ s) ⊎ (can_transition_to s s' ≡ true)

  status-update_status :
      (d : Dict Change) (s : TaskStatus) (t u : Task)
      → t.status ≡ s
      → AllowedChange s d
      → update_status d t ≡ (ok tt, u)
      → Moved s u.status
  unfolding update_status to_status new_text
  status-update_status d s t u e (inl unnamed) h = ground arith
  status-update_status d s t u e (inr (n, named, allowed)) h =
      inr (ground (arith, (parse-value_iff n (Status.value n)).1 refl))

  updated_status :
      (at : Datetime) (e : TaskUpdated) (t u : Task)
      → AllowedChange t.status e.field_changes
      → apply_updated at e t ≡ (ok tt, u)
      → Moved t.status u.status
  unfolding apply_updated
  updated_status at e t u allowed h =
      let d = e.field_changes in
      let (_, t₁, h₁, k₁) = >>=-eq-ok (update_title d) _ t h in
      let (_, t₂, h₂, k₂) = >>=-eq-ok (update_description d) _ t₁ k₁ in
      let (_, t₃, h₃, k₃) = >>=-eq-ok (update_status d) _ t₂ k₂ in
      let (_, t₄, h₄, k₄) = >>=-eq-ok (update_priority d) _ t₃ k₃ in
      let (_, t₅, h₅, k₅) = >>=-eq-ok (update_labels d) _ t₄ k₄ in
      let before : t₂.status ≡ t.status =
        status-update_description d t₁ t₂ h₂ ∙ status-update_title d t t₁ h₁ in
      let after : u.status ≡ t₃.status =
        ap (λ r. r.1.status) (sym k₅)
        ∙ (status-update_labels d t₄ t₅ h₅ ∙ status-update_priority d t₃ t₄ h₄) in
      rw after (status-update_status d t.status t₂ t₃ before allowed h₃)

  -- The status after a lawful event.
  data_status :
      (at : Datetime) (b : TaskEventData) (t u : Task)
      → IsLawful t.status b
      → apply_data at b t ≡ (ok tt, u)
      → Moved t.status u.status
  unfolding apply_data apply_assigned apply_status_changed apply_priority_changed apply_deleted
      to_status
  data_status at (created e) t u l h = absurd l
  data_status at (updated e) t u l h = updated_status at e t u l h
  data_status at (assigned e) t u l h = inl (ground arith)
  data_status at (status_changed e) t u (s, named, allowed) h =
      inr (ground (arith, (parse-value_iff s (Status.value s)).1 refl))
  data_status at (priority_changed e) t u l h = inl (ground arith)
  data_status at (deleted e) t u l h = inl (ground arith)

  emit_status :
      (b : TaskEventData) (a a' : TaskAggregate)
      → IsLawful a.state.status b
      → emit frozen f b a ≡ (ok tt, a')
      → Moved a.state.status a'.state.status
  unfolding emit apply_event
  emit_status b a a' l h =
      data_status f.now b a.state a'.state l
        (raise_event_inv apply_event frozen frozen_instance (new_event f a.aggregate_id b) a a' h).3

  -- A command that returns leaves the status of the task, or moves it along one allowed transition;
  -- this goes for `update` as for `change_status`.
  pub execute-Moved :
      (c : Command) (a a' : TaskAggregate)
      → execute frozen f c a ≡ (ok tt, a')
      → (a'.state.status ≡ a.state.status)
        ⊎ (can_transition_to a.state.status a'.state.status ≡ true)
  execute-Moved c a a' h = elim (execute-Emits frozen f c a) [
    | inl same ↦ inl (ap (λ x. x.state.status) (sym (ap (λ r. r.1) h) ∙ same))
    | inr (b, l, e) ↦ emit_status b a a' l (sym e ∙ h)
  ]
